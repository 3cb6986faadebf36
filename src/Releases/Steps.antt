-- ===== src/Releases/Steps.antt =====
-- Any sequence of the statements of internal/store/release.go that change releases.
use saas_admin.Prelude.{ℕ, String, Bool, List, [], ◌∷◌}
use saas_admin.Database.{Io}
use saas_admin.Releases.{
  Release, ReleaseArtifact, ReleaseTables, create_release, publish_release, yank_release,
  unyank_release, update_release_notes, delete_release,
}
use saas_admin.Releases.Artifacts.{
  create_artifact, update_artifact_file, update_artifact_signature, delete_artifact,
  clear_release_signatures,
}

pub data ReleaseOp : Type 0 where
  create : Io → Release → ReleaseOp
  publish : Io → ℕ → String → Bool → String → ReleaseOp
  yank : Io → ℕ → String → String → ReleaseOp
  unyank : Io → String → ReleaseOp
  note : Io → String → String → String → ReleaseOp
  remove : Io → String → ReleaseOp
  add_artifact : Io → ReleaseArtifact → ReleaseOp
  set_file : Io → String → String → ℕ → String → String → ReleaseOp
  set_signature : Io → String → String → String → ReleaseOp
  remove_artifact : Io → String → ReleaseOp
  clear_signatures : Io → String → ReleaseOp

unfoldable pub step : ReleaseOp → ReleaseTables → ReleaseTables
step (create io r) db = (create_release io r db).0
step (publish io now id require key) db = (publish_release io now id require key db).0
step (yank io now id reason) db = (yank_release io now id reason db).0
step (unyank io id) db = (unyank_release io id db).0
step (note io id name notes) db = (update_release_notes io id name notes db).0
step (remove io id) db = (delete_release io id db).0
step (add_artifact io a) db = (create_artifact io a db).0
step (set_file io id file_key size sha256 content_type) db =
    (update_artifact_file io id file_key size sha256 content_type db).0
step (set_signature io id sig key) db = (update_artifact_signature io id sig key db).0
step (remove_artifact io id) db = (delete_artifact io id db).0
step (clear_signatures io id) db = (clear_release_signatures io id db).0

unfoldable pub run : List ReleaseOp → ReleaseTables → ReleaseTables
unfolding step
run [] db = db
run (op ∷ ops) db = run ops (step op db)
