-- ===== src/Releases/Service.antt =====
-- The other operations of internal/service/release.go on releases and artifacts. The objects in
-- storage, the webhook events and the log lines are left out; the tables' statements are those of
-- internal/store/release.go.
use Prim.Native.String.{◌++◌ as concat}
use saas_admin.Prelude.{ℕ, String, Bool, not, Option, none, some, List, if◌then◌else◌}
use saas_admin.Apperr.{AppError, Result, ok, err, new, internal}
use saas_admin.Database.{Io, found, no_rows, failed, db_error}
use saas_admin.Model.{
  ProductType, desktop, saas, hybrid, other, Product, releases, product_supports,
}
use saas_admin.Releases.{
  Release, ReleaseTables, ReleaseError, release_not_found, not_publishable, not_yankable,
  not_deletable, artifact_not_found, yank_release, unyank_release, delete_release,
}
use saas_admin.Releases.Artifacts.{delete_artifact}
use saas_admin.Releases.Publish.{find_release_by_id}

abbrev pub Answered : Type 0 → Type 0
Answered A = ReleaseTables × Result A

-- A statement's error as the caller's, or what follows it.
abbrev pub answer :
    (ReleaseError → AppError)
    → ReleaseTables × Option ReleaseError
    → (ReleaseTables → Answered Release)
    → Answered Release
answer error p k = elim p.1 [ none ↦ k p.0 | some e ↦ (p.0, err (error e)) ]

-- The release as it is read back.
abbrev pub read_back : Bool → String → ReleaseTables → Answered Release
read_back runs id db = elim (find_release_by_id runs id db) [
  | found r ↦ (db, ok r.0)
  | _ ↦ (db, err (internal db_error))
]

abbrev pub no_release : AppError
no_release = new 404 "RELEASE_NOT_FOUND" "release not found"

abbrev pub yank_error : ReleaseError → AppError
yank_error release_not_found = no_release
yank_error not_yankable = new 409 "NOT_YANKABLE" "only published releases can be yanked"
yank_error _ = internal db_error

-- Statements 0 and 1 yank, 2 reads back.
unfoldable pub yank : Io → ℕ → String → String → ReleaseTables → Answered Release
unfolding yank_release find_release_by_id
yank io now id reason db =
    answer yank_error (yank_release io now id reason db) (read_back (io 2) id)

abbrev pub type_name : ProductType → String
type_name desktop = "desktop"
type_name saas = "saas"
type_name hybrid = "hybrid"
type_name (other t) = t

abbrev pub unyank_error : ReleaseError → AppError
unyank_error release_not_found = no_release
unyank_error not_yankable = new 409 "NOT_UNYANKABLE" "only yanked releases can be unyanked"
unyank_error _ = internal db_error

-- Statement 2 reads the release, 0 and 1 restore it, 3 reads it back. `product` is what the query for
-- the product answers.
unfoldable pub unyank : Io → (String → Option Product) → String → ReleaseTables → Answered Release
unfolding unyank_release find_release_by_id product_supports
unyank io product id db = elim (find_release_by_id (io 2) id db) [
  | no_rows ↦ (db, err no_release)
  | failed ↦ (db, err (internal db_error))
  | found r ↦ elim (product r.0.product_id) [
    | none ↦ (db, err (internal db_error))
    | some prod ↦
        if not (product_supports prod.kind releases)
        then (
          db,
          err (
              new 409 "INCOMPATIBLE_PRODUCT_TYPE" (
                concat "release management is not available for " (
                  concat (type_name prod.kind)
                    " products; change the product type back before unyanking"))),
        )
        else answer unyank_error (unyank_release io id db) (read_back (io 3) id)
  ]
]

abbrev pub delete_error : ReleaseError → AppError
delete_error release_not_found = no_release
delete_error not_deletable =
    new 409 "NOT_DELETABLE" "only draft releases can be hard-deleted; yank instead"
delete_error _ = internal db_error

-- The answer holds the keys of the objects to remove.
unfoldable pub delete_draft : Io → String → ReleaseTables → Answered (List String)
unfolding delete_release
delete_draft io id db =
    let p = delete_release io id db in
    elim p.1 [ none ↦ (p.0, ok p.2) | some e ↦ (p.0, err (delete_error e)) ]

abbrev pub delete_artifact_error : ReleaseError → AppError
delete_artifact_error artifact_not_found = new 404 "ARTIFACT_NOT_FOUND" "artifact not found"
delete_artifact_error not_publishable =
    new 409 "RELEASE_NOT_DRAFT" "artifacts of published / yanked releases cannot be deleted"
delete_artifact_error _ = internal db_error

unfoldable pub remove_artifact : Io → String → ReleaseTables → Answered String
unfolding delete_artifact
remove_artifact io id db =
    let p = delete_artifact io id db in
    elim p.1 [ none ↦ (p.0, ok p.2) | some e ↦ (p.0, err (delete_artifact_error e)) ]
