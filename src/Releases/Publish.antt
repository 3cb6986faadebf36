-- ===== src/Releases/Publish.antt =====
-- `Publish` of internal/service/release.go over internal/store/release.go, with what other requests do
-- to the tables between its statements. The webhook event of a success is left out.
use Prim.Native.String.{◌++◌ as concat}
use saas_admin.Prelude.{
  ℕ, ◌+◌, String, Bool, true, false, not, Option, none, some, List, [], ◌∷◌, if◌then◌else◌,
}
use saas_admin.Prelude.Rows.{select_all}
use saas_admin.Prelude.Table.{select}
use saas_admin.Apperr.{AppError, Result, ok, err, new, internal}
use saas_admin.Database.{Io, Found, found, no_rows, failed, query, db_error}
use saas_admin.Releases.{
  Release, ReleaseArtifact, ReleaseTables, ReleaseError, release_not_found, not_publishable,
  no_artifacts, artifacts_not_ready, artifacts_not_signed, is_draft, has_id, of_release,
  is_uploaded, publish_release,
}
use saas_admin.Releases.Artifacts.{update_artifact_signature, clear_release_signatures}
use saas_admin.Releases.Steps.{ReleaseOp, run}

-- `storage.Exists`
pub data StorageAnswer : Type 0 where
  stored absent storage_disabled : StorageAnswer
  storage_error : String → StorageAnswer

-- `signer.ActiveKey`: a key, ErrSigningKeyMissing or ErrSigningDisabled, or another error.
pub data KeyAnswer : Type 0 where
  active_key : String → KeyAnswer
  no_key : KeyAnswer
  key_error : String → KeyAnswer

-- `signer.SignArtifactWith`: a signature with the id of its key, or an error.
pub data SignAnswer : Type 0 where
  signed : String → String → SignAnswer
  key_missing content_changed too_large not_in_storage : SignAnswer
  sign_error : String → SignAnswer

-- Store calls: 0 finds the release, 1 clears its signatures, 2 publishes it, 3 finds it again, and
-- 4 + n stores the n-th signature. `io n` are the statements of call n and `others n` is what other
-- requests did just before it. `require_signing` is the product's flag, `none` if the product is not
-- read; `signer` is `none` for nil; `sign`
-- answers as `sign_artifact_with` of Finalize does; `quote` is the verb %q.
pub record PublishCall : Type 0 where
  pub now : ℕ
  pub io : ℕ → Io
  pub others : ℕ → List ReleaseOp
  pub storage : String → StorageAnswer
  pub require_signing : Option Bool
  pub signer : Option KeyAnswer
  pub sign : ReleaseArtifact → SignAnswer
  pub quote : String → String

-- `FindReleaseByID`, with the artifacts.
unfoldable pub find_release_by_id :
    Bool → String → ReleaseTables → Found (Release × List ReleaseArtifact)
unfolding select select_all
find_release_by_id runs id db = query runs (elim (select (has_id id) db.releases) [
  | none ↦ none
  | some r ↦ some (r, select_all (of_release id) db.artifacts)
])

abbrev pub not_draft : AppError
not_draft = new 409 "NOT_PUBLISHABLE" "release must be a draft"

abbrev pub about_platform : PublishCall → ReleaseArtifact → String → String
about_platform call a what = concat "artifact for platform " (concat (call.quote a.platform) what)

-- The first artifact that is not uploaded.
unfoldable pub unready : PublishCall → List ReleaseArtifact → Option AppError
unready call [] = none
unready call (a ∷ rest) =
    if is_uploaded a
    then unready call rest
    else some (new 409 "ARTIFACTS_NOT_READY" (about_platform call a " has not finished uploading"))

-- The first artifact whose object is not there, or cannot be looked up.
unfoldable pub unstored : PublishCall → List ReleaseArtifact → Option AppError
unstored call [] = none
unstored call (a ∷ rest) =
    let later = unstored call rest in
    elim (call.storage a.file_key) [
      | stored ↦ later
      | storage_disabled ↦ later
      | absent ↦ some (new 409 "ARTIFACT_MISSING" (about_platform call a " is missing in storage"))
      | storage_error e ↦ some (internal e)
    ]

abbrev pub changed_text : String
changed_text =
    " does not match the sha256 recorded at finalize — if it was just re-uploaded, retry publish; otherwise re-upload and finalize it"

-- The signature of an artifact, or the error of `Publish`.
abbrev pub signature : PublishCall → ReleaseArtifact → Result (String × String)
signature call a = elim (call.sign a) [
  | signed sig key ↦ ok (sig, key)
  | key_missing ↦
      err (new 409 "SIGNING_KEY_MISSING" "active signing key disappeared during publish; retry")
  | content_changed ↦ err (new 409 "ARTIFACT_MODIFIED" (about_platform call a changed_text))
  | too_large ↦ err (
      new 413 "ARTIFACT_TOO_LARGE"
        (about_platform call a " exceeds the configured signing size limit"))
  | not_in_storage ↦
      err (new 409 "ARTIFACT_MISSING" (about_platform call a " is missing in storage"))
  | sign_error e ↦ err (internal e)
]

-- The error of a store call that only drafts admit.
abbrev pub draft_error : ReleaseError → AppError
draft_error not_publishable = not_draft
draft_error _ = internal db_error

unfoldable pub sign_each :
    PublishCall → ℕ → List ReleaseArtifact → ReleaseTables → ReleaseTables × Option AppError
unfolding run
sign_each call n [] db = (db, none)
sign_each call n (a ∷ rest) db = elim (signature call a) [
  | err e ↦ (db, some e)
  | ok s ↦
      let p =
        update_artifact_signature (call.io (4 + n)) a.id s.0 s.1 (run (call.others (4 + n)) db) in
      elim p.1 [ none ↦ sign_each call (n + 1) rest p.0 | some e ↦ (p.0, some (draft_error e)) ]
]

abbrev pub publish_error : ReleaseError → AppError
publish_error release_not_found = new 404 "RELEASE_NOT_FOUND" "release not found"
publish_error no_artifacts = new 409 "NO_ARTIFACTS" "release has no artifacts"
publish_error artifacts_not_ready =
    new 409 "ARTIFACTS_NOT_READY" "one or more artifacts have not finished uploading"
publish_error artifacts_not_signed =
    new 409 "ARTIFACTS_NOT_SIGNED"
      "a concurrent upload cleared one or more signatures; retry publish"
publish_error not_publishable = not_draft
publish_error _ = internal db_error

-- The publish statement and the release it answers with.
unfoldable pub commit :
    PublishCall → String → Bool → String → ReleaseTables → ReleaseTables × Result Release
unfolding run find_release_by_id
commit call id require key db =
    let p = publish_release (call.io 2) call.now id require key (run (call.others 2) db) in
    elim p.1 [
      | some e ↦ (p.0, err (publish_error e))
      | none ↦
          let db' = run (call.others 3) p.0 in
          elim (find_release_by_id (call.io 3 0) id db') [
            | found r ↦ (db', ok r.0)
            | _ ↦ (db', err (internal db_error))
          ]
    ]

abbrev pub not_configured : AppError
not_configured =
    new 409 "SIGNING_NOT_CONFIGURED"
      "this product requires release signing — generate a signing key, or set require_signing=false to ship unsigned releases"

abbrev pub key_answer : PublishCall → KeyAnswer
key_answer call = elim call.signer [ none ↦ no_key | some answer ↦ answer ]

-- The product's flag and the active key decide between signing, clearing and refusing.
unfoldable pub publish_checked :
    PublishCall
    → String
    → List ReleaseArtifact
    → Option Bool
    → KeyAnswer
    → ReleaseTables
    → ReleaseTables × Result Release
unfolding run sign_each commit
publish_checked call id artifacts none answer db = (db, err (internal db_error))
publish_checked call id artifacts (some require) (key_error e) db = (db, err (internal e))
publish_checked call id artifacts (some true) no_key db = (db, err not_configured)
publish_checked call id artifacts (some false) no_key db =
    let p = clear_release_signatures (call.io 1) id (run (call.others 1) db) in
    elim p.1 [ none ↦ commit call id false "" p.0 | some e ↦ (p.0, err (draft_error e)) ]
publish_checked call id artifacts (some require) (active_key key) db =
    let p = sign_each call 0 artifacts db in
    elim p.1 [ none ↦ commit call id true key p.0 | some e ↦ (p.0, err e) ]

abbrev pub is_empty : List ReleaseArtifact → Bool
is_empty [] = true
is_empty (a ∷ t) = false

unfoldable pub publish : PublishCall → String → ReleaseTables → ReleaseTables × Result Release
unfolding find_release_by_id unready unstored publish_checked
publish call id db = elim (find_release_by_id (call.io 0 0) id db) [
  | no_rows ↦ (db, err (new 404 "RELEASE_NOT_FOUND" "release not found"))
  | failed ↦ (db, err (internal db_error))
  | found r ↦
      if not (is_draft r.0.status)
      then (db, err not_draft)
      else if is_empty r.1
      then (db, err (new 409 "NO_ARTIFACTS" "release has no artifacts"))
      else elim (unready call r.1) [
        | some e ↦ (db, err e)
        | none ↦ elim (unstored call r.1) [
          | some e ↦ (db, err e)
          | none ↦ publish_checked call id r.1 call.require_signing (key_answer call) db
        ]
      ]
]
