-- ===== src/Releases/Keys.antt =====
-- The primary keys of the tables of internal/store/release.go, over every statement.
use saas_admin.Prelude.{ℕ, ◌≤◌, String, ◌≡◌, refl, Bool, List, arith, eq_iff}
use saas_admin.Prelude.Table.{count, update, delete, count-update, count-delete-le}
use saas_admin.Prelude.Rows.{count-insert_fresh}
use saas_admin.Database.{Io}
use saas_admin.Releases.{
  draft, with_status, is_draft, Release, ReleaseArtifact, ReleaseTables, ReleaseError, has_id,
  of_release, taken_by, create_release, publish_release, yank_release, unyank_release,
  update_release_notes, delete_release, published_now, update_release,
}
use saas_admin.Releases.Artifacts.{
  with_file, with_signature, artifact_id, same_artifact, create_artifact, update_artifact_file,
  update_artifact_signature, delete_artifact, when_draft, without_signature,
}
use saas_admin.Releases.Cases.{
  create_release-cases, publish_release-cases, update_release-cases, delete_release-cases,
  create_artifact-cases, when_draft-cases, clear_release_signatures-cases,
}
use saas_admin.Releases.Steps.{
  ReleaseOp, create, publish, yank, unyank, note, remove, add_artifact, set_file, set_signature,
  remove_artifact, clear_signatures, step,
}

abbrev pub ReleaseKey : List Release → Type 0
ReleaseKey t = (i : String) → count (has_id i) t ≤ 1

abbrev pub ArtifactKey : List ReleaseArtifact → Type 0
ArtifactKey t = (i : String) → count (artifact_id i) t ≤ 1

abbrev pub Keys : ReleaseTables → Type 0
Keys db = ReleaseKey db.releases × ArtifactKey db.artifacts

ReleaseKey-update :
    (p : Release → Bool) (f : Release → Release) (t : List Release)
    → ((i : String) (r : Release) → has_id i (f r) ≡ has_id i r)
    → ReleaseKey t
    → ReleaseKey (update p f t)
ReleaseKey-update p f t h k i = omega (arith, count-update (has_id i) p f t (λ r e. h i r), k i)

ArtifactKey-update :
    (p : ReleaseArtifact → Bool) (f : ReleaseArtifact → ReleaseArtifact) (t : List ReleaseArtifact)
    → ((i : String) (r : ReleaseArtifact) → artifact_id i (f r) ≡ artifact_id i r)
    → ArtifactKey t
    → ArtifactKey (update p f t)
ArtifactKey-update p f t h k i =
    omega (arith, count-update (artifact_id i) p f t (λ r e. h i r), k i)

ArtifactKey-delete :
    (p : ReleaseArtifact → Bool) (t : List ReleaseArtifact)
    → ArtifactKey t
    → ArtifactKey (delete p t)
ArtifactKey-delete p t k i = omega (arith, count-delete-le (artifact_id i) p t, k i)

module _ (io : Io) (db : ReleaseTables) (k : Keys db) where
  Keys-update :
      (p : Release → Bool) (f : Release → Release) (miss : ReleaseError)
      → ((i : String) (r : Release) → has_id i (f r) ≡ has_id i r)
      → Keys (update_release io p f miss db).0
  Keys-update p f miss h =
      update_release-cases Keys io db k p f miss (ReleaseKey-update p f db.releases h k.0, k.1)

  Keys-create : (r : Release) → Keys (create_release io r db).0
  Keys-create r = create_release-cases Keys io db k r λ n. (
    λ i.
        count-insert_fresh (taken_by r) (has_id i) (record r { status = draft }) db.releases n
          (λ e x h. ground (arith, e, h, eq_iff r.id i, eq_iff x.id i, eq_iff x.id r.id)) (k.0 i),
    k.1,
  )

  Keys-publish :
      (now : ℕ) (id : String) (require : Bool) (key : String)
      → Keys (publish_release io now id require key db).0
  Keys-publish now id require key =
      publish_release-cases Keys io db k now id require key
        (ReleaseKey-update _ (published_now now) db.releases (λ i r. refl) k.0, k.1)

  Keys-delete : (id : String) → Keys (delete_release io id db).0
  Keys-delete id = delete_release-cases Keys io db k id λ r s d. (
    λ i. omega (arith, count-delete-le (has_id i) (with_status is_draft id) db.releases, k.0 i),
    ArtifactKey-delete (of_release id) db.artifacts k.1,
  )

  Keys-create_artifact : (a : ReleaseArtifact) → Keys (create_artifact io a db).0
  Keys-create_artifact a = create_artifact-cases Keys io db k a λ r s d n. (
    k.0,
    λ i.
        count-insert_fresh (same_artifact a) (artifact_id i) a db.artifacts n
          (λ e x h. ground (arith, e, h, eq_iff a.id i, eq_iff x.id i, eq_iff x.id a.id)) (k.1 i),
  )

  Keys-when_draft :
      (id : String) (write : List ReleaseArtifact → List ReleaseArtifact)
      → ArtifactKey (write db.artifacts)
      → Keys (when_draft io id write db).0
  Keys-when_draft id write h = when_draft-cases Keys io db k id write (λ p s d. (k.0, h))

-- Every statement keeps the primary keys.
pub step-Keys : (op : ReleaseOp) (db : ReleaseTables) → Keys db → Keys (step op db)
unfolding step yank_release unyank_release update_release_notes update_artifact_file
    update_artifact_signature delete_artifact
step-Keys (create io r) db k = Keys-create io db k r
step-Keys (publish io now id require key) db k = Keys-publish io db k now id require key
step-Keys (yank io now id reason) db k = Keys-update io db k _ _ _ (λ i r. refl)
step-Keys (unyank io id) db k = Keys-update io db k _ _ _ (λ i r. refl)
step-Keys (note io id name notes) db k = Keys-update io db k _ _ _ (λ i r. refl)
step-Keys (remove io id) db k = Keys-delete io db k id
step-Keys (add_artifact io a) db k = Keys-create_artifact io db k a
step-Keys (set_file io id file_key size sha256 content_type) db k =
    let f = with_file file_key size sha256 content_type in
    Keys-when_draft io db k id (update (artifact_id id) f)
      (ArtifactKey-update (artifact_id id) f db.artifacts (λ i r. refl) k.1)
step-Keys (set_signature io id sig key) db k =
    let f = with_signature sig key in
    Keys-when_draft io db k id (update (artifact_id id) f)
      (ArtifactKey-update (artifact_id id) f db.artifacts (λ i r. refl) k.1)
step-Keys (remove_artifact io id) db k =
    Keys-when_draft io db k id (delete (artifact_id id))
      (ArtifactKey-delete (artifact_id id) db.artifacts k.1)
step-Keys (clear_signatures io id) db k = clear_release_signatures-cases Keys io db k id λ r s d.
    (k.0, ArtifactKey-update (of_release id) without_signature db.artifacts (λ i r. refl) k.1)
