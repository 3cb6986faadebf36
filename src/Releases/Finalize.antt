-- ===== src/Releases/Finalize.antt =====
-- `FinalizeArtifact` of internal/service/release.go, which pins the hash of an uploaded object, and
-- `SignArtifactWith` of internal/service/release_signing.go, which signs it.
use saas_admin.Prelude.{
  ℕ, ◌+◌, ◌*◌, ◌^◌, min, String, Bool, not, ◌&&◌, Option, none, some, ◌==◌, ltb, leb, if◌then◌else◌,
}
use saas_admin.Prelude.Table.{select}
use saas_admin.Apperr.{AppError, ok, err, new, internal}
use saas_admin.Database.{Io, Found, found, no_rows, failed, query, db_error}
use saas_admin.Releases.{
  ReleaseArtifact, ReleaseTables, ReleaseError, artifact_not_found, not_publishable,
}
use saas_admin.Releases.Artifacts.{artifact_id, update_artifact_file}
use saas_admin.Releases.Publish.{
  SignAnswer, signed, content_changed, too_large, not_in_storage, sign_error,
}
use saas_admin.Releases.Service.{Answered}

-- `storage.Head`: the size and the type of an object, ErrObjectNotFound, or another error.
pub data HeadAnswer : Type 0 where
  head_of : ℕ → String → HeadAnswer
  no_object : HeadAnswer
  head_error : String → HeadAnswer

-- `storage.Get` and the reading of what it gives: the content, ErrObjectNotFound, another error, or a
-- read that breaks off.
pub data BodyAnswer : Type 0 where
  body_of : String → BodyAnswer
  no_body : BodyAnswer
  body_error : String → BodyAnswer

-- The storage, the length of a text in bytes, its SHA-256 in hex, and `sha256Pattern`.
pub record ObjectCode : Type 0 where
  pub head : String → HeadAnswer
  pub body : String → BodyAnswer
  pub bytes : String → ℕ
  pub hash : String → String
  pub is_sha256 : String → Bool

abbrev pub max_finalize_read_size : ℕ
max_finalize_read_size = 8 * 2 ^ 30

abbrev pub same_size : ℕ → ℕ → Bool
same_size m n = leb m n && leb n m

-- The hash, ErrObjectNotFound, or another error.
pub data HashAnswer : Type 0 where
  hash_of : String → HashAnswer
  no_content : HashAnswer
  hash_error : String → HashAnswer

-- One byte more than the limit is read.
unfoldable pub compute_artifact_sha256 : ObjectCode → String → ℕ → HashAnswer
compute_artifact_sha256 c key expected = elim (c.body key) [
  | no_body ↦ no_content
  | body_error e ↦ hash_error e
  | body_of content ↦
      if ltb max_finalize_read_size (min (c.bytes content) (max_finalize_read_size + 1))
      then hash_error "artifact exceeded finalize size cap"
      else if not (same_size (c.bytes content) expected)
      then hash_error "artifact size mismatch"
      else hash_of (c.hash content)
]

unfoldable pub find_artifact : Bool → String → ReleaseTables → Found ReleaseArtifact
unfolding select
find_artifact runs id db = query runs (select (artifact_id id) db.artifacts)

pub record FinalizeArtifactInput : Type 0 where
  pub artifact_id : String
  pub expected_sha256 : String

abbrev pub no_artifact : AppError
no_artifact = new 404 "ARTIFACT_NOT_FOUND" "artifact not found"

abbrev pub incomplete : AppError
incomplete = new 409 "UPLOAD_INCOMPLETE" "artifact upload not yet completed in storage"

abbrev pub finalize_error : ReleaseError → AppError
finalize_error not_publishable = new 409 "RELEASE_NOT_DRAFT" "artifact's release is no longer draft"
finalize_error artifact_not_found = no_artifact
finalize_error _ = internal db_error

-- The object's type, or the artifact's, where it fits the column.
abbrev pub final_type : ObjectCode → String → ReleaseArtifact → String
final_type c head_type a =
    let content_type = if head_type == "" then a.content_type else head_type in
    if ltb 128 (c.bytes content_type) then "application/octet-stream" else content_type

-- Statements 0 to 2 write the file, 4 reads the artifact back.
unfoldable pub pin :
    Io → String → String → ℕ → String → String → ReleaseTables → Answered ReleaseArtifact
unfolding update_artifact_file find_artifact
pin io id key size hash content_type db =
    let p = update_artifact_file io id key size hash content_type db in
    elim p.1 [
      | some e ↦ (p.0, err (finalize_error e))
      | none ↦ elim (find_artifact (io 4) id p.0) [
        | found a ↦ (p.0, ok a)
        | _ ↦ (p.0, err (internal db_error))
      ]
    ]

-- What follows the hash of the object. The texts of the errors leave out the numbers and hashes.
abbrev pub hashed :
    Io
    → ObjectCode
    → FinalizeArtifactInput
    → ReleaseArtifact
    → ℕ
    → String
    → HashAnswer
    → ReleaseTables
    → Answered ReleaseArtifact
hashed io c input a size head_type no_content db = (db, err incomplete)
hashed io c input a size head_type (hash_error e) db = (db, err (internal e))
hashed io c input a size head_type (hash_of h) db =
    if not (input.expected_sha256 == "") && not (input.expected_sha256 == h)
    then (db, err (new 409 "SHA256_MISMATCH" "uploaded bytes hash to another value"))
    else pin io a.id a.file_key size h (final_type c head_type a) db

-- Statement 3 finds the artifact.
unfoldable pub finalize_artifact :
    Io → ObjectCode → FinalizeArtifactInput → ReleaseTables → Answered ReleaseArtifact
unfolding find_artifact compute_artifact_sha256 pin
finalize_artifact io c input db =
    if not (input.expected_sha256 == "") && not (c.is_sha256 input.expected_sha256)
    then (db, err (new 400 "INVALID_SHA256" "expected_sha256 must be 64 lowercase hex characters"))
    else elim (find_artifact (io 3) input.artifact_id db) [
      | no_rows ↦ (db, err no_artifact)
      | failed ↦ (db, err (internal db_error))
      | found a ↦ elim (c.head a.file_key) [
        | no_object ↦ (db, err incomplete)
        | head_error e ↦ (db, err (internal e))
        | head_of size head_type ↦
            if ltb max_finalize_read_size size
            then (db, err (new 413 "ARTIFACT_TOO_LARGE" "artifact size exceeds finalize limit"))
            else hashed io c input a size head_type (compute_artifact_sha256 c a.file_key size) db
      ]
    ]

-- A row of release_signing_keys.
pub record SigningKey : Type 0 where
  pub id : String
  pub product_id : String
  pub private_key_encrypted : String

-- `decrypt` opens a key for a product, `is_seed` looks at the length of a seed, `sign` is ed25519, and
-- `slot` says whether a signing slot comes free before the request is canceled.
pub record SignCode : Type 0 where
  pub objects : ObjectCode
  pub max_sign_size : ℕ
  pub slot : Bool
  pub decrypt : String → String → Option String
  pub is_seed : String → Bool
  pub sign : String → String → String

-- The content is read whole and compared with the pinned hash before it is signed.
unfoldable pub sign_body : SignCode → String → SigningKey → ReleaseArtifact → SignAnswer
sign_body c seed key a = elim (c.objects.body a.file_key) [
  | no_body ↦ not_in_storage
  | body_error e ↦ sign_error e
  | body_of content ↦
      if ltb c.max_sign_size (min (c.objects.bytes content) (c.max_sign_size + 1))
      then too_large
      else if not (a.sha256 == "") && not (c.objects.hash content == a.sha256)
      then content_changed
      else signed (c.sign seed content) key.id
]

unfoldable pub sign_artifact_with : SignCode → String → SigningKey → ReleaseArtifact → SignAnswer
unfolding sign_body
sign_artifact_with c product_id key a =
    if a.file_key == ""
    then not_in_storage
    else if ltb c.max_sign_size a.file_size
    then too_large
    else if not c.slot
    then sign_error "context canceled"
    else elim (c.decrypt key.private_key_encrypted product_id) [
      | none ↦ sign_error "decrypt private key"
      | some seed ↦
          if c.is_seed seed
          then sign_body c seed key a
          else sign_error "decrypted seed has wrong length"
    ]
