-- ===== src/Releases/Lifecycle.antt =====
-- The life of a release as internal/store/release.go promises it, and its statements against it.
use saas_admin.Prelude.{
  String, ◌≡◌, refl, inl, inr, Bool, true, Option, none, some, List, arith, ◌==◌, Bool-cases,
  Option-cases,
}
use saas_admin.Prelude.Table.{delete, select, update}
use saas_admin.Prelude.Rows.{select-update, select-delete}
use saas_admin.Database.{Io}
use saas_admin.Releases.{
  ReleaseStatus, published, yanked, Release, ReleaseTables, draft, is_draft, is_published,
  is_yanked, has_id, with_status, create_release, yank_release, unyank_release,
  update_release_notes, delete_release, publishable, published_now,
}
use saas_admin.Releases.Artifacts.{
  artifact_id, with_file, with_signature, update_artifact_file, update_artifact_signature,
  delete_artifact,
}
use saas_admin.Releases.Steps.{
  ReleaseOp, create, publish, yank, unyank, note, remove, add_artifact, set_file, set_signature,
  remove_artifact, clear_signatures, step,
}
use saas_admin.Releases.Cases.{
  create_release-cases, publish_release-cases, update_release-cases, delete_release-cases,
  create_artifact-cases, when_draft-cases, clear_release_signatures-cases,
}
use saas_admin.Releases.Keys.{Keys}
use saas_admin.Releases.Kept.{fresh_id}

abbrev pub state : Option Release → Option ReleaseStatus
state none = none
state (some r) = some r.status

abbrev pub status_of : String → ReleaseTables → Option ReleaseStatus
status_of i db = state (select (has_id i) db.releases)

-- The life of a release: it is created as a draft, a draft is published or deleted, a published
-- release is yanked, and a yanked one restored.
pub data Moves : Option ReleaseStatus → Option ReleaseStatus → Type 0 where
  stays : {s : Option ReleaseStatus} → Moves s s
  drafted : Moves none (some draft)
  shipped_now : Moves (some draft) (some published)
  withdrawn : Moves (some published) (some yanked)
  restored : Moves (some yanked) (some published)
  deleted : Moves (some draft) none

moved :
    (p : Release → Bool) (f : Release → Release) (t : List Release) (i : String)
    → ((r : Release) → has_id i (f r) ≡ has_id i r)
    → ((r : Release) → p r ≡ true → Moves (some r.status) (some (f r).status))
    → Moves (state (select (has_id i) t)) (state (select (has_id i) (update p f t)))
moved p f t i h m =
    let s = select-update (has_id i) p f t h in
    elim (Option-cases (select (has_id i) t)) [
      | inl n ↦ rw (s, n) stays
      | inr (r, e) ↦ elim (Bool-cases (p r)) [
        | inl g ↦ rw (s, e, g) (m r g)
        | inr g ↦ rw (s, e, g) stays
      ]
    ]

shipping :
    (r : Release) (s : ReleaseStatus)
    → r.status ≡ s
    → is_draft s ≡ true
    → Moves (some r.status) (some published)
shipping r draft e d = rw e shipped_now
shipping r published e d = absurd (cc)
shipping r yanked e d = absurd (cc)

withdrawing :
    (r : Release) (s : ReleaseStatus)
    → r.status ≡ s
    → is_published s ≡ true
    → Moves (some r.status) (some yanked)
withdrawing r draft e d = absurd (cc)
withdrawing r published e d = rw e withdrawn
withdrawing r yanked e d = absurd (cc)

restoring :
    (r : Release) (s : ReleaseStatus)
    → r.status ≡ s
    → is_yanked s ≡ true
    → Moves (some r.status) (some published)
restoring r draft e d = absurd (cc)
restoring r published e d = absurd (cc)
restoring r yanked e d = rw e restored

deleting :
    (r : Release) (s : ReleaseStatus)
    → r.status ≡ s
    → is_draft s ≡ true
    → Moves (some r.status) none
deleting r draft e d = rw e deleted
deleting r published e d = absurd (cc)
deleting r yanked e d = absurd (cc)

module _ (i : String) (io : Io) (db : ReleaseTables) (k : Keys db) where
  -- The release's status moves from what it is in `db`.
  abbrev Follows : ReleaseTables → Type 0
  Follows db' = Moves (status_of i db) (status_of i db')

  Follows-create : (r : Release) → Follows (create_release io r db).0
  unfolding select
  Follows-create r = create_release-cases Follows io db stays r λ n. elim (Bool-cases (r.id == i)) [
    | inl e ↦ rw (e, fresh_id i r db.releases n e) drafted
    | inr e ↦ rw e stays
  ]

  Follows-delete : (id : String) → Follows (delete_release io id db).0
  Follows-delete id = delete_release-cases Follows io db stays id λ r e d.
      let s = select-delete (has_id i) (with_status is_draft id) db.releases (k.0 i) in
      elim (Option-cases (select (has_id i) db.releases)) [
        | inl n ↦ rw (s, n) stays
        | inr (x, f) ↦ elim (Bool-cases (with_status is_draft id x)) [
          | inl g ↦ rw (s, f, g) (deleting x x.status refl (ground (arith, g)))
          | inr g ↦ rw (s, f, g) stays
        ]
      ]

-- The statements refine the life of a release: whatever a statement does and wherever it fails, the
-- status of every release stays or makes one of the moves of that life. It assumes the primary keys.
pub step_refines :
    (op : ReleaseOp) (i : String) (db : ReleaseTables)
    → Keys db
    → Moves (status_of i db) (status_of i (step op db))
unfolding step yank_release unyank_release update_release_notes update_artifact_file
    update_artifact_signature delete_artifact
step_refines (create io r) i db k = Follows-create i io db k r
step_refines (publish io now id require key) i db k =
    publish_release-cases (Follows i io db k) io db stays now id require key (
      moved (publishable require key db.artifacts id) (published_now now) db.releases i (λ r. refl)
        (λ r h. shipping r r.status refl (ground (arith, h))))
step_refines (yank io now id reason) i db k =
    update_release-cases (Follows i io db k) io db stays _ _ _ (
      moved (with_status is_published id) _ db.releases i (λ r. refl)
        (λ r h. withdrawing r r.status refl (ground (arith, h))))
step_refines (unyank io id) i db k = update_release-cases (Follows i io db k) io db stays _ _ _ (
    moved (with_status is_yanked id) _ db.releases i (λ r. refl)
      (λ r h. restoring r r.status refl (ground (arith, h))))
step_refines (note io id name notes) i db k =
    update_release-cases (Follows i io db k) io db stays _ _ _
      (moved (has_id id) _ db.releases i (λ r. refl) (λ r h. stays))
step_refines (remove io id) i db k = Follows-delete i io db k id
step_refines (add_artifact io a) i db k =
    create_artifact-cases (Follows i io db k) io db stays a (λ r s d n. stays)
step_refines (set_file io id file_key size sha256 content_type) i db k =
    when_draft-cases (Follows i io db k) io db stays id
      (update (artifact_id id) (with_file file_key size sha256 content_type)) (λ p s d. stays)
step_refines (set_signature io id sig key) i db k =
    when_draft-cases (Follows i io db k) io db stays id
      (update (artifact_id id) (with_signature sig key)) (λ p s d. stays)
step_refines (remove_artifact io id) i db k =
    when_draft-cases (Follows i io db k) io db stays id (delete (artifact_id id)) (λ p s d. stays)
step_refines (clear_signatures io id) i db k =
    clear_release_signatures-cases (Follows i io db k) io db stays id (λ r s d. stays)
