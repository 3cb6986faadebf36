-- ===== src/Releases/Kept.antt =====
-- What each statement of internal/store/release.go leaves of a release that has shipped.
use saas_admin.Prelude.{
  ℕ, ◌≤◌, String, ◌≡◌, refl, inl, inr, Bool, true, false, not, Option, none, some, List, arith,
  ◌==◌, eq_iff, Bool-cases, Option-cases,
}
use saas_admin.Prelude.Table.{
  select, count, update, delete, select-eq-some, count_mono, count-eq-zero_of_select,
  select-none_of_count,
}
use saas_admin.Prelude.Rows.{
  select_all, select-update, select-delete, select_all-update_found, select_all-delete_found,
  select_all-update_other, select_all-delete_other,
}
use saas_admin.Database.{Io}
use saas_admin.Releases.{
  Release, ReleaseArtifact, ReleaseTables, ReleaseError, is_draft, has_id, of_release, unfinished,
  with_status, taken_by, create_release, publish_release, yank_release, unyank_release,
  update_release_notes, delete_release, publishable, published_now, update_release,
}
use saas_admin.Releases.Artifacts.{
  artifact_id, create_artifact, update_artifact_file, update_artifact_signature, delete_artifact,
  clear_release_signatures, when_draft, with_file, with_signature, without_signature,
  artifact_release,
}
use saas_admin.Releases.Steps.{
  ReleaseOp, create, publish, yank, unyank, note, remove, add_artifact, set_file, set_signature,
  remove_artifact, clear_signatures, step,
}
use saas_admin.Releases.Cases.{
  create_release-cases, publish_release-cases, update_release-cases, delete_release-cases,
  create_artifact-cases, when_draft-cases, clear_release_signatures-cases,
}
use saas_admin.Releases.Keys.{Keys}

-- The release exists and is no draft: it is published, or was and is yanked.
abbrev pub ships : Option Release → Bool
ships none = false
ships (some r) = not (is_draft r.status)

abbrev pub shipped : String → ReleaseTables → Bool
shipped i db = ships (select (has_id i) db.releases)

-- The release has an artifact, and each of its artifacts is uploaded.
abbrev pub Complete : String → List ReleaseArtifact → Type 0
Complete i t = (1 ≤ count (of_release i) t) × (count (unfinished i) t ≡ 0)

abbrev pub artifacts_of : String → ReleaseTables → List ReleaseArtifact
artifacts_of i db = select_all (of_release i) db.artifacts

-- From one state of the tables to another, a shipped release stays shipped with the same artifacts,
-- and a release that ships is complete.
abbrev pub Kept : String → ReleaseTables → ReleaseTables → Type 0
Kept i db db' =
    (shipped i db ≡ true → (shipped i db' ≡ true) × (artifacts_of i db' ≡ artifacts_of i db))
    × (shipped i db ≡ false → shipped i db' ≡ true → Complete i db'.artifacts)

-- What the select of a shipped release finds.
found_draft :
    (i j : String) (db : ReleaseTables) {r : Release}
    → shipped i db ≡ true
    → select (has_id j) db.releases ≡ some r
    → is_draft r.status ≡ true
    → (j == i) ≡ false
found_draft i j db {r = r} h s d = elim (Bool-cases (j == i)) [
  | inr n ↦ n
  | inl e ↦
      let s' : select (has_id i) db.releases ≡ some r = rw (← (eq_iff j i).0 e) s in
      absurd (ground (arith, h, s', d))
]

-- A new release takes no id that is there.
pub fresh_id :
    (i : String) (r : Release) (t : List Release)
    → select (taken_by r) t ≡ none
    → (r.id == i) ≡ true
    → select (has_id i) t ≡ none
fresh_id i r t n e = select-none_of_count (has_id i) t (
    omega (
      arith,
      count_mono (has_id i) (taken_by r) t
          (λ x h. ground (arith, e, h, eq_iff r.id i, eq_iff x.id i, eq_iff x.id r.id)),
      count-eq-zero_of_select (taken_by r) t n,
    ))

pub gate_passed :
    (require : Bool) (key i id : String) (t : List ReleaseArtifact) (r : Release)
    → has_id i r ≡ true
    → publishable require key t id r ≡ true
    → Complete i t
gate_passed require key i id t r h e =
    let q : r.id ≡ i = (eq_iff r.id i).0 h in
    let q' : r.id ≡ id = (eq_iff r.id id).0 (ground (arith, e)) in
    rw (← q) (rw q' (ground (arith, e)))

artifact_release_inv :
    (id : String) (db : ReleaseTables) (p : ReleaseArtifact × Release)
    → artifact_release id db ≡ some p
    → (select (artifact_id id) db.artifacts ≡ some p.0)
      × (select (has_id p.0.release_id) db.releases ≡ some p.1)
unfolding artifact_release
artifact_release_inv id db p e = elim (Option-cases (select (artifact_id id) db.artifacts)) [
  | inl n ↦ absurd (ground (arith, n, e))
  | inr (a, f) ↦ elim (Option-cases (select (has_id a.release_id) db.releases)) [
    | inl n ↦ absurd (ground (arith, n, e, f))
    | inr (r, g) ↦ let q : (a, r) ≡ p = ground (arith, e, f, g) in rw (← q) (f, g)
  ]
]

module _ (i : String) (io : Io) (db : ReleaseTables) (k : Keys db) where
  Kept-same : Kept i db db
  Kept-same = (λ h. (h, refl), λ n h. absurd (cc))

  Kept-releases :
      (p : Release → Bool) (f : Release → Release) (miss : ReleaseError)
      → ((r : Release) → has_id i (f r) ≡ has_id i r)
      → ((r : Release) → p r ≡ true → is_draft (f r).status ≡ is_draft r.status)
      → Kept i db (update_release io p f miss db).0
  Kept-releases p f miss h d = update_release-cases (Kept i db) io db Kept-same p f miss (
      let s = select-update (has_id i) p f db.releases h in
      elim (Option-cases (select (has_id i) db.releases)) [
        | inl n ↦ rw (shipped, s, n) (λ h. absurd (cc), λ n h. absurd (cc))
        | inr (r, e) ↦
            rw (s, e)
              (λ h. (ground (arith, h, d r), refl), λ n h. absurd (ground (arith, n, h, d r)))
      ])

  Kept-create : (r : Release) → Kept i db (create_release io r db).0
  unfolding select
  Kept-create r = create_release-cases (Kept i db) io db Kept-same r λ n.
      elim (Bool-cases (r.id == i)) [
        | inl e ↦
            let z = fresh_id i r db.releases n e in
            rw (shipped, e, z) (λ h. absurd (cc), λ n h. absurd (cc))
        | inr e ↦ rw (shipped, e) (λ h. (h, refl), λ n h. absurd (cc))
      ]

  Kept-publish :
      (now : ℕ) (id : String) (require : Bool) (key : String)
      → Kept i db (publish_release io now id require key db).0
  Kept-publish now id require key =
      publish_release-cases (Kept i db) io db Kept-same now id require key (
        let p = publishable require key db.artifacts id in
        let s = select-update (has_id i) p (published_now now) db.releases (λ r. refl) in
        elim (Option-cases (select (has_id i) db.releases)) [
          | inl n ↦ rw (shipped, s, n) (λ h. absurd (cc), λ n h. absurd (cc))
          | inr (r, e) ↦
              let m = select-eq-some (has_id i) db.releases {r = r} e in
              rw (shipped, s, e)
                (
                  λ h. (ground (arith, h), refl),
                  λ n h. elim (Bool-cases (p r)) [
                    | inl g ↦ gate_passed require key i id db.artifacts r m g
                    | inr g ↦ absurd (ground (arith, n, h, g))
                  ],
                )
        ])

  Kept-delete : (id : String) → Kept i db (delete_release io id db).0
  Kept-delete id = delete_release-cases (Kept i db) io db Kept-same id λ r e d.
      let s = select-delete (has_id i) (with_status is_draft id) db.releases (k.0 i) in
      elim (Option-cases (select (has_id i) db.releases)) [
        | inl n ↦ rw (shipped, s, n) (λ h. absurd (cc), λ n h. absurd (cc))
        | inr (x, f) ↦
            rw (shipped, s, f)
              (
                λ h.
                    let o = found_draft i id db {r = r} (rw (shipped, f) h) e d in
                    (
                      ground (arith, h),
                      select_all-delete_other (of_release id) (of_release i) db.artifacts (λ a g.
                          ground (
                            arith,
                            g,
                            o,
                            eq_iff a.release_id i,
                            eq_iff a.release_id id,
                            eq_iff id i,
                          )),
                    ),
                λ n h. absurd (ground (arith, n, h)),
              )
      ]

  Kept-create_artifact : (a : ReleaseArtifact) → Kept i db (create_artifact io a db).0
  unfolding select_all
  Kept-create_artifact a = create_artifact-cases (Kept i db) io db Kept-same a λ r e d n.
      (λ h. (h, rw (found_draft i a.release_id db {r = r} h e d) refl), λ n h. absurd (cc))

  Kept-when_draft :
      (id : String) (write : List ReleaseArtifact → List ReleaseArtifact)
      → ((a : ReleaseArtifact)
          → select (artifact_id id) db.artifacts ≡ some a
          → of_release i a ≡ false
          → select_all (of_release i) (write db.artifacts) ≡ artifacts_of i db)
      → Kept i db (when_draft io id write db).0
  Kept-when_draft id write w = when_draft-cases (Kept i db) io db Kept-same id write λ p s d.
      let (e, f) = artifact_release_inv id db p s in
      (λ h. (h, w p.0 e (found_draft i p.0.release_id db {r = p.1} h f d)), λ n h. absurd (cc))

  Kept-update :
      (id : String) (f : ReleaseArtifact → ReleaseArtifact)
      → ((a : ReleaseArtifact) → of_release i (f a) ≡ of_release i a)
      → Kept i db (when_draft io id (update (artifact_id id) f) db).0
  Kept-update id f h = Kept-when_draft id (update (artifact_id id) f) λ a e n.
      select_all-update_found (artifact_id id) (of_release i) f db.artifacts {a = a} e (k.1 id) n h

  Kept-clear : (id : String) → Kept i db (clear_release_signatures io id db).0
  Kept-clear id = clear_release_signatures-cases (Kept i db) io db Kept-same id λ r e d. (
    λ h.
        let o = found_draft i id db {r = r} h e d in
        (
          h,
          select_all-update_other (of_release id) (of_release i) without_signature db.artifacts
              (λ a g.
                ground (arith, g, o, eq_iff a.release_id i, eq_iff a.release_id id, eq_iff id i))
              (λ a. refl),
        ),
    λ n h. absurd (cc),
  )

pub step-Kept :
    (i : String) (op : ReleaseOp) (db : ReleaseTables) → Keys db → Kept i db (step op db)
unfolding step yank_release unyank_release update_release_notes update_artifact_file
    update_artifact_signature delete_artifact
step-Kept i (create io r) db k = Kept-create i io db k r
step-Kept i (publish io now id require key) db k = Kept-publish i io db k now id require key
step-Kept i (yank io now id reason) db k =
    Kept-releases i io db k _ _ _ (λ r. refl) (λ r h. ground (arith, h))
step-Kept i (unyank io id) db k =
    Kept-releases i io db k _ _ _ (λ r. refl) (λ r h. ground (arith, h))
step-Kept i (note io id name notes) db k = Kept-releases i io db k _ _ _ (λ r. refl) (λ r h. refl)
step-Kept i (remove io id) db k = Kept-delete i io db k id
step-Kept i (add_artifact io a) db k = Kept-create_artifact i io db k a
step-Kept i (set_file io id file_key size sha256 content_type) db k =
    Kept-update i io db k id (with_file file_key size sha256 content_type) (λ a. refl)
step-Kept i (set_signature io id sig key) db k =
    Kept-update i io db k id (with_signature sig key) (λ a. refl)
step-Kept i (remove_artifact io id) db k =
    Kept-when_draft i io db k id (delete (artifact_id id)) λ a e n.
      select_all-delete_found (artifact_id id) (of_release i) db.artifacts {a = a} e (k.1 id) n
step-Kept i (clear_signatures io id) db k = Kept-clear i io db k id
