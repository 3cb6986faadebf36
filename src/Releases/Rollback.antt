-- ===== src/Releases/Rollback.antt =====
-- The rollback of `AddArtifact` in internal/service/release.go.
use saas_admin.Prelude.{
  ◌≡◌, refl, ap, ◌∙◌, inl, inr, true, none, some, List, ◌∷◌, arith, eq_refl, Option-cases,
}
use saas_admin.Prelude.Table.{select, delete, delete-none, count_mono, count-eq-zero_of_select}
use saas_admin.Apperr.{AppError, err}
use saas_admin.Database.{Io, healthy}
use saas_admin.Releases.{ReleaseError, Release, ReleaseArtifact, ReleaseTables, is_draft, has_id}
use saas_admin.Releases.Artifacts.{
  artifact_id, same_artifact, artifact_release, create_artifact, delete_artifact,
}
use saas_admin.Releases.Drafts.{
  UploadAnswer, upload_link, upload_disabled, upload_error, link_or_rollback, attach,
}

fresh_artifact :
    (a : ReleaseArtifact) (t : List ReleaseArtifact)
    → select (same_artifact a) t ≡ none
    → delete (artifact_id a.id) (a ∷ t) ≡ t
unfolding delete
fresh_artifact a t n = rw (eq_refl a.id) (
    delete-none (artifact_id a.id) t (
      omega (
        arith,
        count_mono (artifact_id a.id) (same_artifact a) t (λ x h. ground (arith, h)),
        count-eq-zero_of_select (same_artifact a) t n,
      )))

-- The delete of the rollback takes the new row away again.
deleted_again :
    (a : ReleaseArtifact) (r : Release) (db : ReleaseTables)
    → select (has_id a.release_id) db.releases ≡ some r
    → is_draft r.status ≡ true
    → select (same_artifact a) db.artifacts ≡ none
    → (delete_artifact healthy a.id (record db { artifacts = a ∷ db.artifacts })).0 ≡ db
unfolding delete_artifact artifact_release select
deleted_again a r db s d n = rw (eq_refl a.id, s, d, fresh_artifact a db.artifacts n) refl

create_artifact_refused :
    (io : Io) (a : ReleaseArtifact) (db : ReleaseTables) {e : ReleaseError}
    → (create_artifact io a db).1 ≡ some e
    → (create_artifact io a db).0 ≡ db
unfolding create_artifact
create_artifact_refused io a db h = ground (arith, h)

create_artifact_done :
    (io : Io) (a : ReleaseArtifact) (db : ReleaseTables)
    → (create_artifact io a db).1 ≡ none
    → (r : Release) × (select (has_id a.release_id) db.releases ≡ some r)
      × (is_draft r.status ≡ true)
      × (select (same_artifact a) db.artifacts ≡ none)
      × ((create_artifact io a db).0 ≡ record db { artifacts = a ∷ db.artifacts })
unfolding create_artifact
create_artifact_done io a db h = elim (Option-cases (select (has_id a.release_id) db.releases)) [
  | inl n ↦ absurd (ground (arith, h, n))
  | inr (r, s) ↦ (r, s, ground (arith, h, s), ground (arith, h, s), ground (arith, h, s))
]

undone :
    (a : ReleaseArtifact) (upload : UploadAnswer) (db db' : ReleaseTables) {e : AppError}
    → (delete_artifact healthy a.id db').0 ≡ db
    → (link_or_rollback healthy a upload db').1 ≡ err e
    → (link_or_rollback healthy a upload db').0 ≡ db
unfolding link_or_rollback
undone a (upload_link url) db db' d h = absurd (cc)
undone a upload_disabled db db' d h = d
undone a (upload_error x) db db' d h = d

-- An artifact is attached or nothing is: whatever the error, of a statement or of the storage that
-- should give a link to upload to, the tables are as they were, if the statements of the rollback run.
pub attach_atomic :
    (io : Io) (a : ReleaseArtifact) (upload : UploadAnswer) (db : ReleaseTables) {e : AppError}
    → (attach io healthy a upload db).1 ≡ err e
    → (attach io healthy a upload db).0 ≡ db
unfolding attach
attach_atomic io a upload db {e = e} h = elim (Option-cases (create_artifact io a db).1) [
  | inr (x, f) ↦ rw (attach, f) (create_artifact_refused io a db {e = x} f)
  | inl f ↦
      let (r, s, d, n, q) = create_artifact_done io a db f in
      let b : (delete_artifact healthy a.id (create_artifact io a db).0).0 ≡ db =
        ap (λ (x : ReleaseTables). (delete_artifact healthy a.id x).0) q
        ∙ deleted_again a r db s d n in
      let h' : (link_or_rollback healthy a upload (create_artifact io a db).0).1 ≡ err e =
        ground (arith, h, f) in
      rw (attach, f) (undone a upload db (create_artifact io a db).0 {e = e} b h')
]
