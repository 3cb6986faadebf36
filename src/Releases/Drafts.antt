-- ===== src/Releases/Drafts.antt =====
-- The drafts of releases: creation and attachment of artifacts, internal/service/release.go.
use Prim.Native.String.{◌++◌ as concat}
use saas_admin.Prelude.{
  ℕ, String, Bool, not, ◌&&◌, ◌||◌, Option, none, some, List, [], ◌∷◌, ◌==◌, ltb, if◌then◌else◌,
}
use saas_admin.Apperr.{AppError, ok, err, new, internal}
use saas_admin.Database.{Io, found, no_rows, failed, db_error}
use saas_admin.Releases.{
  Release, ReleaseArtifact, ReleaseTables, ReleaseError, draft, release_not_found,
  release_already_exists, not_publishable, artifact_already_exists, is_draft, create_release,
}
use saas_admin.Releases.Artifacts.{create_artifact, delete_artifact}
use saas_admin.Releases.Feed.{stable, is_valid_release_channel, contains, allowed_platforms}
use saas_admin.Releases.Publish.{find_release_by_id}
use saas_admin.Releases.Download.{invalid_platform, invalid_channel}
use saas_admin.Releases.Service.{Answered, answer, no_release}

pub record CreateReleaseInput : Type 0 where
  pub product_id : String
  pub version : String
  pub channel : String
  pub name : String
  pub release_notes : String

-- What the validation of a version uses: whether it has a plus sign, whether `semverPattern` matches,
-- `semver.IsValid` of it after a "v", whether `semver.Prerelease` is not empty, and the length of a text
-- in bytes.
pub record VersionCode : Type 0 where
  pub has_plus : String → Bool
  pub matches : String → Bool
  pub is_valid : String → Bool
  pub is_prerelease : String → Bool
  pub bytes : String → ℕ

abbrev pub invalid_version : String
invalid_version = "invalid version (must be semver: 1.2.3 or 1.2.3-beta.1)"

abbrev pub validate_version : VersionCode → String → Option String
validate_version c v =
    if c.has_plus v
    then some "build metadata (+...) is not allowed in release versions"
    else if not (c.matches v) || not (c.is_valid v)
    then some invalid_version
    else none

abbrev pub create_channel : CreateReleaseInput → String
create_channel input = if input.channel == "" then stable else input.channel

-- The first complaint about the input.
unfoldable pub refused_input : VersionCode → CreateReleaseInput → Option AppError
refused_input c input = elim (validate_version c input.version) [
  | some e ↦ some (new 400 "INVALID_VERSION" e)
  | none ↦
      if not (is_valid_release_channel (create_channel input))
      then some invalid_channel
      else if (create_channel input == stable) && c.is_prerelease input.version
      then some (
          new 400 "INVALID_VERSION"
            "prerelease versions cannot ship on the stable channel — use beta, alpha or dev")
      else if input.product_id == ""
      then some (new 400 "MISSING_PRODUCT" "product_id is required")
      else if ltb 256 (c.bytes input.name)
      then some (new 400 "NAME_TOO_LONG" "name too long")
      else if ltb 65536 (c.bytes input.release_notes)
      then some (new 400 "NOTES_TOO_LONG" "release notes too long")
      else none
]

abbrev pub create_error : ReleaseError → AppError
create_error release_already_exists =
    new 409 "RELEASE_EXISTS" "a release for this product/version already exists"
create_error _ = internal db_error

abbrev pub new_release : String → CreateReleaseInput → Release
new_release id input = record {
  id = id;
  product_id = input.product_id;
  version = input.version;
  channel = create_channel input;
  name = input.name;
  release_notes = input.release_notes;
  status = draft;
  yanked_reason = "";
  published_at = none;
  yanked_at = none;
}

-- `id` is the fresh id.
unfoldable pub create :
    VersionCode → Io → String → CreateReleaseInput → ReleaseTables → Answered Release
unfolding refused_input create_release
create c io id input db = elim (refused_input c input) [
  | some e ↦ (db, err e)
  | none ↦
      answer create_error (create_release io (new_release id input) db)
        (λ db'. (db', ok (new_release id input)))
]

pub record AddArtifactInput : Type 0 where
  pub release_id : String
  pub platform : String
  pub content_type : String
  pub filename : String

-- `PresignedPut`: a link, ErrStorageDisabled, or another error.
pub data UploadAnswer : Type 0 where
  upload_link : String → UploadAnswer
  upload_disabled : UploadAnswer
  upload_error : String → UploadAnswer

abbrev pub add_error : ReleaseError → AppError
add_error artifact_already_exists =
    new 409 "ARTIFACT_EXISTS"
      "this release already has an artifact for this platform; delete it first"
add_error release_not_found = no_release
add_error not_publishable =
    new 409 "RELEASE_NOT_DRAFT" "artifacts can only be added to draft releases"
add_error _ = internal db_error

abbrev pub default_type : String
default_type = "application/octet-stream"

abbrev pub new_artifact : String → String → AddArtifactInput → ReleaseArtifact
new_artifact id file_key input = record {
  id = id;
  release_id = input.release_id;
  platform = input.platform;
  file_key = file_key;
  file_size = 0;
  sha256 = "";
  ed25519_sig = "";
  content_type = if input.content_type == "" then default_type else input.content_type;
  signing_key_id = none;
}

-- The row is deleted again when there is no link to upload to.
unfoldable pub link_or_rollback :
    Io → ReleaseArtifact → UploadAnswer → ReleaseTables → Answered String
unfolding delete_artifact
link_or_rollback io a (upload_link url) db = (db, ok url)
link_or_rollback io a upload_disabled db = (
  (delete_artifact io a.id db).0,
  err (new 503 "STORAGE_DISABLED" "release storage is not configured on this server"),
)
link_or_rollback io a (upload_error e) db = ((delete_artifact io a.id db).0, err (internal e))

-- The row is written and a link is asked for; `undo` are the statements of the rollback.
unfoldable pub attach : Io → Io → ReleaseArtifact → UploadAnswer → ReleaseTables → Answered String
unfolding create_artifact link_or_rollback
attach io undo a upload db =
    let p = create_artifact io a db in
    elim p.1 [ some e ↦ (p.0, err (add_error e)) | none ↦ link_or_rollback undo a upload p.0 ]

-- The texts of a storage path: `normalizeExt` of a file name, and a text with each run of characters
-- outside A-Za-z0-9._- replaced.
pub record PathCode : Type 0 where
  pub normalize_ext : String → String
  pub safe_key_component : String → String

abbrev pub extensions : List String
extensions =
    ".dmg" ∷ ".pkg" ∷ ".zip" ∷ ".tar.gz" ∷ ".tar.xz" ∷ ".tar.bz2" ∷ ".tar.zst" ∷ ".tgz" ∷ ".tar"
    ∷ ".gz" ∷ ".xz" ∷ ".exe" ∷ ".msi" ∷ ".nupkg" ∷ ".appimage" ∷ ".deb" ∷ ".rpm" ∷ ".snap"
    ∷ ".flatpak" ∷ ".bin" ∷ ".app" ∷ ".7z" ∷ []

abbrev pub valid_extension : String → Bool
valid_extension ext = contains ext extensions

abbrev pub build_file_key : PathCode → String → String → String → String → String
build_file_key c product_id platform version filename =
    let ext = c.normalize_ext filename in
    concat "releases/" (
      concat (c.safe_key_component product_id) (
        concat "/" (
          concat (c.safe_key_component version) (
            concat "/"
              (concat (c.safe_key_component platform) (if valid_extension ext then ext else ""))))))

-- Statement 3 finds the release; `upload` answers for a file key and a type.
unfoldable pub add_artifact :
    Io
    → Io
    → String
    → PathCode
    → (String → String → UploadAnswer)
    → AddArtifactInput
    → ReleaseTables
    → Answered String
unfolding find_release_by_id attach
add_artifact io undo id paths upload input db =
    if not (contains input.platform allowed_platforms)
    then (db, err invalid_platform)
    else elim (find_release_by_id (io 3) input.release_id db) [
      | no_rows ↦ (db, err no_release)
      | failed ↦ (db, err (internal db_error))
      | found r ↦
          if not (is_draft r.0.status)
          then (db, err (add_error not_publishable))
          else (let key =
                build_file_key paths r.0.product_id input.platform r.0.version input.filename in
              let a = new_artifact id key input in attach io undo a (upload key a.content_type) db)
    ]
