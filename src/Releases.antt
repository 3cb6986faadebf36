-- ===== src/Releases.antt =====
-- Releases: the rows of internal/model/model.go and the statements of internal/store/release.go on
-- releases; Artifacts holds those on their artifacts. The SQL of a transaction that locks the release
-- is one step.
pub mod Drafts
pub mod Artifacts
pub mod Steps
pub mod Cases
pub mod Kept
pub mod Gate
pub mod Publish
pub mod Signed
pub mod Feed
pub mod Download
pub mod Latest
pub mod Pool
pub mod Served
pub mod Service
pub mod Rollback
pub mod Finalize
pub mod Pinned
mod Tests
mod UploadTests
pub mod Lifecycle
pub mod Keys
use saas_admin.Prelude.{
  ℕ, zero, suc, ◌+◌, ◌-◌, ◌*◌, ◌/◌, ◌%◌, ◌^◌, ◌≤◌, ◌<◌, min, max, String, ◌≡◌, refl, sym, ap, ◌∙◌,
  ◌≢◌, ◌↔◌, ◌⊎◌, inl, inr, Bool, true, false, not, ◌&&◌, ◌||◌, Option, none, some, List, [], ◌∷◌,
  ◌++◌, map, arith, ◌==◌, eq_iff, eq_refl, ltb, leb, nat_eq, if◌then◌else◌, ltb→lt, lt→ltb, leb→le,
  le→leb, Bool-cases, Option-cases, length, All,
}
use saas_admin.Prelude.Table.{select, count, update, delete}
use saas_admin.Prelude.Rows.{select_all}
use saas_admin.Database.{Io}

pub data ReleaseStatus : Type 0 where
  draft published yanked : ReleaseStatus

pub record Release : Type 0 where
  pub id : String
  pub product_id : String
  pub version : String
  pub channel : String
  pub name : String
  pub release_notes : String
  pub status : ReleaseStatus
  pub yanked_reason : String
  pub published_at : Option ℕ
  pub yanked_at : Option ℕ

-- `none` is a NULL signing key.
pub record ReleaseArtifact : Type 0 where
  pub id : String
  pub release_id : String
  pub platform : String
  pub file_key : String
  pub file_size : ℕ
  pub sha256 : String
  pub ed25519_sig : String
  pub content_type : String
  pub signing_key_id : Option String

pub record ReleaseTables : Type 0 where
  pub releases : List Release
  pub artifacts : List ReleaseArtifact

pub data ReleaseError : Type 0 where
  release_not_found release_already_exists not_publishable no_artifacts artifacts_not_ready
        artifacts_not_signed not_yankable not_deletable artifact_not_found artifact_already_exists
        statement_failed :
      ReleaseError

abbrev pub is_draft : ReleaseStatus → Bool
is_draft draft = true
is_draft published = false
is_draft yanked = false

abbrev pub is_published : ReleaseStatus → Bool
is_published draft = false
is_published published = true
is_published yanked = false

abbrev pub is_yanked : ReleaseStatus → Bool
is_yanked draft = false
is_yanked published = false
is_yanked yanked = true

abbrev pub has_id : String → Release → Bool
has_id id r = r.id == id

abbrev pub of_release : String → ReleaseArtifact → Bool
of_release id a = a.release_id == id

-- `IsUploaded`
abbrev pub is_uploaded : ReleaseArtifact → Bool
is_uploaded a = not (a.file_key == "") && not (a.sha256 == "")

-- file_key = '' OR sha256 = ''
abbrev pub unfinished : String → ReleaseArtifact → Bool
unfinished id a = of_release id a && ((a.file_key == "") || (a.sha256 == ""))

-- ed25519_sig = '' OR signing_key_id IS NULL OR (key <> '' AND signing_key_id <> key)
abbrev pub unsigned : String → String → ReleaseArtifact → Bool
unsigned id key a =
    of_release id a
    && ((a.ed25519_sig == "")
        || elim a.signing_key_id [ none ↦ true | some k ↦ not (key == "") && not (k == key) ])

-- The result of a statement: the tables, and the error if there is one.
abbrev pub Stored : Type 0
Stored = ReleaseTables × Option ReleaseError

-- The primary key and the unique (product_id, version).
abbrev pub taken_by : Release → Release → Bool
taken_by r r' = (r'.id == r.id) || ((r'.product_id == r.product_id) && (r'.version == r.version))

-- `r` is a draft: the caller leaves the status to the column's default.
unfoldable pub create_release : Io → Release → ReleaseTables → Stored
create_release io r db =
    if io 0
    then elim (select (taken_by r) db.releases) [
      | some r' ↦ (db, some release_already_exists)
      | none ↦ (record db { releases = record r { status = draft } ∷ db.releases }, none)
    ]
    else (db, some statement_failed)

-- The condition of the UPDATE of `PublishRelease`.
abbrev pub publishable : Bool → String → List ReleaseArtifact → String → Release → Bool
publishable require key artifacts id r =
    (has_id id r && is_draft r.status)
    && (ltb 0 (count (of_release id) artifacts)
        && (leb (count (unfinished id) artifacts) 0
            && (not require || leb (count (unsigned id key) artifacts) 0)))

abbrev pub published_now : ℕ → Release → Release
published_now now r = record r { status = published; published_at = some now }

-- Statement 1 reads the status, 2, 3 and 4 count artifacts.
unfoldable pub diagnose_unpublishable : Io → String → Bool → String → ReleaseTables → ReleaseError
diagnose_unpublishable io id require key db =
    if io 1
    then elim (select (has_id id) db.releases) [
      | none ↦ release_not_found
      | some r ↦
          if not (is_draft r.status)
          then not_publishable
          else if not (io 2)
          then statement_failed
          else if leb (count (of_release id) db.artifacts) 0
          then no_artifacts
          else if not (io 3)
          then statement_failed
          else if ltb 0 (count (unfinished id) db.artifacts)
          then artifacts_not_ready
          else if not require
          then not_publishable
          else if not (io 4)
          then statement_failed
          else if ltb 0 (count (unsigned id key) db.artifacts)
          then artifacts_not_signed
          else not_publishable
    ]
    else statement_failed

unfoldable pub publish_release : Io → ℕ → String → Bool → String → ReleaseTables → Stored
unfolding diagnose_unpublishable
publish_release io now id require key db =
    if io 0
    then elim (select (publishable require key db.artifacts id) db.releases) [
      | none ↦ (db, some (diagnose_unpublishable io id require key db))
      | some r ↦ (
        record db {
          releases =
              update (publishable require key db.artifacts id) (published_now now) db.releases;
        },
        none,
      )
    ]
    else (db, some statement_failed)

-- Statement 1 looks whether the release exists.
unfoldable pub classify_release_update_miss :
    Io → String → ReleaseError → ReleaseTables → ReleaseError
classify_release_update_miss io id default db =
    if io 1
    then elim (select (has_id id) db.releases) [ none ↦ release_not_found | some r ↦ default ]
    else statement_failed

abbrev pub with_status : (ReleaseStatus → Bool) → String → Release → Bool
with_status is id r = has_id id r && is r.status

-- An UPDATE of the release with that id and status, and its error if it meets no row.
abbrev pub update_release :
    Io → (Release → Bool) → (Release → Release) → ReleaseError → ReleaseTables → Stored
update_release io p f miss db =
    if io 0
    then elim (select p db.releases) [
      | none ↦ (db, some miss)
      | some r ↦ (record db { releases = update p f db.releases }, none)
    ]
    else (db, some statement_failed)

unfoldable pub yank_release : Io → ℕ → String → String → ReleaseTables → Stored
unfolding classify_release_update_miss
yank_release io now id reason db =
    update_release io (with_status is_published id)
      (λ r. record r { status = yanked; yanked_reason = reason; yanked_at = some now })
      (classify_release_update_miss io id not_yankable db) db

unfoldable pub unyank_release : Io → String → ReleaseTables → Stored
unfolding classify_release_update_miss
unyank_release io id db =
    update_release io (with_status is_yanked id)
      (λ r. record r { status = published; yanked_reason = ""; yanked_at = none })
      (classify_release_update_miss io id not_yankable db) db

unfoldable pub update_release_notes : Io → String → String → String → ReleaseTables → Stored
update_release_notes io id name notes db =
    update_release io (has_id id) (λ r. record r { name = name; release_notes = notes })
      release_not_found db

abbrev pub file_keys : List ReleaseArtifact → List String
file_keys [] = []
file_keys (a ∷ t) = let rest = file_keys t in if a.file_key == "" then rest else a.file_key ∷ rest

-- Statement 0 locks and reads the release, 1 reads the file keys, 2 deletes and 3 commits; the
-- foreign key deletes the artifacts. The keys are those of the objects to remove from storage.
unfoldable pub delete_release :
    Io → String → ReleaseTables → ReleaseTables × Option ReleaseError × List String
unfolding select_all
delete_release io id db =
    if io 0
    then elim (select (has_id id) db.releases) [
      | none ↦ (db, some release_not_found, [])
      | some r ↦
          if not (is_draft r.status)
          then (db, some not_deletable, [])
          else if io 1 && (io 2 && io 3)
          then (
            record {
              releases = delete (with_status is_draft id) db.releases;
              artifacts = delete (of_release id) db.artifacts;
            },
            none,
            file_keys (select_all (of_release id) db.artifacts),
          )
          else (db, some statement_failed, [])
    ]
    else (db, some statement_failed, [])
