-- ===== src/Releases/Artifacts.antt =====
-- The statements of internal/store/release.go on artifacts. Each locks the parent release, and refuses
-- when it is not a draft.
use saas_admin.Prelude.{
  ℕ, String, Bool, not, ◌&&◌, ◌||◌, Option, none, some, List, ◌∷◌, ◌==◌, if◌then◌else◌,
}
use saas_admin.Prelude.Table.{select, update, delete}
use saas_admin.Database.{Io}
use saas_admin.Releases.{
  Release, ReleaseArtifact, ReleaseTables, ReleaseError, release_not_found, not_publishable,
  artifact_not_found, artifact_already_exists, statement_failed, Stored, is_draft, has_id,
  of_release,
}

abbrev pub artifact_id : String → ReleaseArtifact → Bool
artifact_id id a = a.id == id

-- The primary key and the unique (release_id, platform).
abbrev pub same_artifact : ReleaseArtifact → ReleaseArtifact → Bool
same_artifact a b = (b.id == a.id) || ((b.release_id == a.release_id) && (b.platform == a.platform))

-- Statement 0 locks the release, 1 inserts, 2 commits.
unfoldable pub create_artifact : Io → ReleaseArtifact → ReleaseTables → Stored
create_artifact io a db =
    if io 0
    then elim (select (has_id a.release_id) db.releases) [
      | none ↦ (db, some release_not_found)
      | some r ↦
          if not (is_draft r.status)
          then (db, some not_publishable)
          else if not (io 1)
          then (db, some statement_failed)
          else elim (select (same_artifact a) db.artifacts) [
            | some b ↦ (db, some artifact_already_exists)
            | none ↦
                if io 2
                then (record db { artifacts = a ∷ db.artifacts }, none)
                else (db, some statement_failed)
          ]
    ]
    else (db, some statement_failed)

-- SELECT … FROM release_artifacts ra JOIN releases r ON r.id = ra.release_id WHERE ra.id = ?
unfoldable pub artifact_release : String → ReleaseTables → Option (ReleaseArtifact × Release)
artifact_release id db = elim (select (artifact_id id) db.artifacts) [
  | none ↦ none
  | some a ↦ elim (select (has_id a.release_id) db.releases) [ none ↦ none | some r ↦ some (a, r) ]
]

-- A change of the artifacts that the lock of their release permits: 0 locks, 1 writes, 2 commits.
abbrev pub when_draft :
    Io → String → (List ReleaseArtifact → List ReleaseArtifact) → ReleaseTables → Stored
when_draft io id write db =
    if io 0
    then elim (artifact_release id db) [
      | none ↦ (db, some artifact_not_found)
      | some p ↦
          if not (is_draft p.1.status)
          then (db, some not_publishable)
          else if io 1 && io 2
          then (record db { artifacts = write db.artifacts }, none)
          else (db, some statement_failed)
    ]
    else (db, some statement_failed)

abbrev pub with_file : String → ℕ → String → String → ReleaseArtifact → ReleaseArtifact
with_file file_key size sha256 content_type a = record a {
  file_key = file_key;
  file_size = size;
  sha256 = sha256;
  content_type = content_type;
  ed25519_sig = "";
  signing_key_id = none;
}

-- The new file drops the signature.
unfoldable pub update_artifact_file :
    Io → String → String → ℕ → String → String → ReleaseTables → Stored
unfolding artifact_release
update_artifact_file io id file_key size sha256 content_type db =
    when_draft io id (update (artifact_id id) (with_file file_key size sha256 content_type)) db

abbrev pub with_signature : String → String → ReleaseArtifact → ReleaseArtifact
with_signature sig key a = record a { ed25519_sig = sig; signing_key_id = some key }

unfoldable pub update_artifact_signature : Io → String → String → String → ReleaseTables → Stored
unfolding artifact_release
update_artifact_signature io id sig key db =
    when_draft io id (update (artifact_id id) (with_signature sig key)) db

-- The error, and the key of the object to remove from storage.
unfoldable pub delete_artifact :
    Io → String → ReleaseTables → ReleaseTables × Option ReleaseError × String
unfolding artifact_release
delete_artifact io id db =
    let p = when_draft io id (delete (artifact_id id)) db in
    (
      p.0,
      p.1,
      elim p.1 [
        | some e ↦ ""
        | none ↦ elim (artifact_release id db) [ none ↦ "" | some q ↦ q.0.file_key ]
      ],
    )

abbrev pub without_signature : ReleaseArtifact → ReleaseArtifact
without_signature a = record a { ed25519_sig = ""; signing_key_id = none }

unfoldable pub clear_release_signatures : Io → String → ReleaseTables → Stored
clear_release_signatures io id db =
    if io 0
    then elim (select (has_id id) db.releases) [
      | none ↦ (db, some release_not_found)
      | some r ↦
          if not (is_draft r.status)
          then (db, some not_publishable)
          else if io 1 && io 2
          then (
            record db { artifacts = update (of_release id) without_signature db.artifacts },
            none,
          )
          else (db, some statement_failed)
    ]
    else (db, some statement_failed)
