-- ===== src/Releases/Signed.antt =====
-- What a successful `Publish` of internal/service/release.go has shipped.
use saas_admin.Prelude.{
  ℕ, ◌+◌, String, ◌≡◌, refl, ap, ◌⊎◌, inl, inr, Bool, true, false, Option, none, some, List, [],
  ◌∷◌, arith, Bool-cases, Option-cases,
}
use saas_admin.Prelude.Table.{select, count, select-eq-some}
use saas_admin.Prelude.Rows.{select_of_only, select-update, count-select_all}
use saas_admin.Apperr.{AppError, Result, ok, err, internal}
use saas_admin.Database.{Io, Found, found, no_rows, failed, db_error}
use saas_admin.Releases.{
  Release, ReleaseArtifact, ReleaseTables, is_draft, has_id, of_release, unsigned, publishable,
  published_now, publish_release,
}
use saas_admin.Releases.Artifacts.{update_artifact_signature, clear_release_signatures}
use saas_admin.Releases.Steps.{ReleaseOp, run, publish, set_signature, clear_signatures, step}
use saas_admin.Releases.Keys.{Keys, step-Keys}
use saas_admin.Releases.Kept.{shipped, Complete, gate_passed}
use saas_admin.Releases.Gate.{run_frozen, Complete-artifacts}
use saas_admin.Releases.Publish.{
  PublishCall, KeyAnswer, active_key, no_key, key_error, sign_each, signature, commit, key_answer,
  publish_checked, find_release_by_id, unready, unstored, is_empty,
}
use saas_admin.Releases.Publish

Result-cases {ℓ} :
    {A : Type ℓ} (m : Result A) → ((a : A) × (m ≡ ok a)) ⊎ ((e : AppError) × (m ≡ err e))
Result-cases (ok a) = inl (a, refl)
Result-cases (err e) = inr (e, refl)

run-Keys : (ops : List ReleaseOp) (db : ReleaseTables) → Keys db → Keys (run ops db)
unfolding run
run-Keys [] db k = k
run-Keys (op ∷ ops) db k = run-Keys ops (step op db) (step-Keys op db k)

-- The release is out, complete, and, where signatures were required, signed with the key.
abbrev pub Out : String → Bool → String → ReleaseTables → Type 0
Out id require key db =
    (shipped id db ≡ true)
    × Complete id db.artifacts
    × (require ≡ true → count (unsigned id key) db.artifacts ≡ 0)

Out-publish_release :
    (io : Io) (now : ℕ) (id : String) (require : Bool) (key : String) (db : ReleaseTables)
    → Keys db
    → (publish_release io now id require key db).1 ≡ none
    → Out id require key (publish_release io now id require key db).0
unfolding publish_release
Out-publish_release io now id require key db k h =
    let p = publishable require key db.artifacts id in
    elim (Bool-cases (io 0)) [
      | inr e ↦ absurd (ground (arith, e, h))
      | inl e ↦ elim (Option-cases (select p db.releases)) [
        | inl n ↦ absurd (ground (arith, e, n, h))
        | inr (r, s) ↦
            let m = select-eq-some p db.releases {r = r} s in
            let u = select-update (has_id id) p (published_now now) db.releases (λ x. refl) in
            rw (publish_release, e, s)
              (
                rw
                    (
                      u,
                      select_of_only p (has_id id) db.releases {a = r} (λ x g. ground (arith, g)) s
                          (k.0 id),
                      m,
                    )
                    refl,
                gate_passed require key id id db.artifacts r (ground (arith, m)) m,
                λ q. ground (arith, m, q),
              )
      ]
    ]

-- What later requests leave of it.
Out-run :
    (ops : List ReleaseOp) (id : String) (require : Bool) (key : String) (db : ReleaseTables)
    → Keys db
    → Out id require key db
    → Out id require key (run ops db)
Out-run ops id require key db k (s, c, u) =
    let (s', e) = run_frozen ops id db k s in
    let f = λ (t : List ReleaseArtifact).
      count-select_all (of_release id) (unsigned id key) t (λ r h. ground (arith, h)) in
    (
      s',
      Complete-artifacts id db (run ops db) e c,
      λ q.
          omega
            (arith, f db.artifacts, f (run ops db).artifacts, ap (count (unsigned id key)) e, u q),
    )

Keys-sign_each :
    (call : PublishCall) (n : ℕ) (artifacts : List ReleaseArtifact) (db : ReleaseTables)
    → Keys db
    → Keys (sign_each call n artifacts db).0
unfolding sign_each
Keys-sign_each call n [] db k = k
Keys-sign_each call n (a ∷ rest) db k = elim (Result-cases (signature call a)) [
  | inl (s, e) ↦
      let op = set_signature (call.io (4 + n)) a.id s.0 s.1 in
      let db' = run (call.others (4 + n)) db in
      let p = update_artifact_signature (call.io (4 + n)) a.id s.0 s.1 db' in
      let k' : Keys p.0 = unfold step in step-Keys op db' (run-Keys (call.others (4 + n)) db k) in
      elim (Option-cases p.1) [
        | inl f ↦ rw (sign_each, e, f) (Keys-sign_each call (n + 1) rest p.0 k')
        | inr (x, f) ↦ rw (sign_each, e, f) k'
      ]
  | inr (x, e) ↦ rw (sign_each, e) k
]

-- A request that succeeds has shipped the release.
abbrev pub Delivers : String → Bool → String → ReleaseTables × Result Release → Type 0
Delivers id require key p = (r : Release) → p.1 ≡ ok r → Out id require key p.0

Delivers-found :
    (id : String) (require : Bool) (key : String) (db : ReleaseTables)
    (f : Found (Release × List ReleaseArtifact))
    → Out id require key db
    → Delivers id require key
        (elim f [ found r ↦ (db, ok r.0) | _ ↦ (db, err (internal db_error)) ])
Delivers-found id require key db (found r) o = λ r' h. o
Delivers-found id require key db no_rows o = λ r h. absurd (cc)
Delivers-found id require key db failed o = λ r h. absurd (cc)

Delivers-commit :
    (call : PublishCall) (id : String) (require : Bool) (key : String) (db : ReleaseTables)
    → Keys db
    → Delivers id require key (commit call id require key db)
unfolding commit
Delivers-commit call id require key db k =
    let db₁ = run (call.others 2) db in
    let p = publish_release (call.io 2) call.now id require key db₁ in
    let k₁ = run-Keys (call.others 2) db k in
    elim (Option-cases p.1) [
      | inr (x, e) ↦ rw (commit, e) (λ r h. absurd (cc))
      | inl n ↦
          let o = Out-publish_release (call.io 2) call.now id require key db₁ k₁ n in
          let k₂ : Keys p.0 =
            unfold step in step-Keys (publish (call.io 2) call.now id require key) db₁ k₁ in
          rw (commit, n)
            (Delivers-found id require key (run (call.others 3) p.0)
              (find_release_by_id (call.io 3 0) id (run (call.others 3) p.0))
              (Out-run (call.others 3) id require key p.0 k₂ o))
    ]

-- What a request that succeeds has done, whatever the signing of the product.
abbrev pub Published : PublishCall → String → ReleaseTables × Result Release → Type 0
Published call id p =
    (r : Release)
    → p.1 ≡ ok r
    → (shipped id p.0 ≡ true)
      × Complete id p.0.artifacts
      × ((key : String)
          → key_answer call ≡ active_key key
          → count (unsigned id key) p.0.artifacts ≡ 0)
      × (call.require_signing ≡ some true → (key : String) × (key_answer call ≡ active_key key))

Published-refused :
    (call : PublishCall) (id : String) (db : ReleaseTables) (e : AppError)
    → Published call id (db, err e)
Published-refused call id db e = λ r h. absurd (cc)

Published-unsigned :
    (call : PublishCall) (id : String) (db : ReleaseTables)
    → Keys db
    → key_answer call ≡ no_key
    → call.require_signing ≡ some false
    → Published call id (commit call id false "" db)
Published-unsigned call id db k e f = λ r h.
    let o = Delivers-commit call id false "" db k r h in
    (o.0, o.1, λ key g. absurd (ground (arith, e, g)), λ g. absurd (ground (arith, f, g)))

Published-signed :
    (call : PublishCall) (id key : String) (db : ReleaseTables)
    → Keys db
    → key_answer call ≡ active_key key
    → Published call id (commit call id true key db)
Published-signed call id key db k e = λ r h.
    let o = Delivers-commit call id true key db k r h in
    (
      o.0,
      o.1,
      λ key' g. let q : key ≡ key' = ground (arith, e, g) in rw (← q) (o.2 refl),
      λ g. (key, e),
    )

Published-checked :
    (call : PublishCall) (id : String) (artifacts : List ReleaseArtifact) (db : ReleaseTables)
    (o : Option Bool) (a : KeyAnswer)
    → Keys db
    → call.require_signing ≡ o
    → key_answer call ≡ a
    → Published call id (publish_checked call id artifacts o a db)
unfolding publish_checked
Published-checked call id artifacts db none a k e f = Published-refused call id db _
Published-checked call id artifacts db (some b) (key_error x) k e f = Published-refused call id db _
Published-checked call id artifacts db (some true) no_key k e f = Published-refused call id db _
Published-checked call id artifacts db (some false) no_key k e f =
    let db' = run (call.others 1) db in
    let p = clear_release_signatures (call.io 1) id db' in
    let k' : Keys p.0 =
      unfold step in
      step-Keys (clear_signatures (call.io 1) id) db' (run-Keys (call.others 1) db k) in
    elim (Option-cases p.1) [
      | inl n ↦ rw (publish_checked, n) (Published-unsigned call id p.0 k' f e)
      | inr (x, s) ↦ rw (publish_checked, s) (Published-refused call id p.0 _)
    ]
Published-checked call id artifacts db (some b) (active_key key) k e f =
    let p = sign_each call 0 artifacts db in
    elim (Option-cases p.1) [
      | inl n ↦
          rw (publish_checked, n)
            (Published-signed call id key p.0 (Keys-sign_each call 0 artifacts db k) f)
      | inr (x, s) ↦ rw (publish_checked, s) (Published-refused call id p.0 _)
    ]

Published-found :
    (call : PublishCall) (id : String) (db : ReleaseTables)
    (f : Found (Release × List ReleaseArtifact))
    → Keys db
    → find_release_by_id (call.io 0 0) id db ≡ f
    → Published call id (Publish.publish call id db)
unfolding Publish.publish
Published-found call id db no_rows k e = rw (e, Publish.publish) (Published-refused call id db _)
Published-found call id db failed k e = rw (e, Publish.publish) (Published-refused call id db _)
Published-found call id db (found r) k e = elim (Bool-cases (is_draft r.0.status)) [
  | inr d ↦ rw (e, Publish.publish, d) (Published-refused call id db _)
  | inl d ↦ elim (Bool-cases (is_empty r.1)) [
    | inl n ↦ rw (e, Publish.publish, d, n) (Published-refused call id db _)
    | inr n ↦ elim (Option-cases (unready call r.1)) [
      | inr (x, u) ↦ rw (e, Publish.publish, d, n, u) (Published-refused call id db x)
      | inl u ↦ elim (Option-cases (unstored call r.1)) [
        | inr (x, s) ↦ rw (e, Publish.publish, d, n, u, s) (Published-refused call id db x)
        | inl s ↦
            rw (e, Publish.publish, d, n, u, s)
              (Published-checked call id r.1 db call.require_signing (key_answer call) k refl refl)
      ]
    ]
  ]
]

-- A publish request that succeeds has shipped a complete release, whatever other requests do between
-- its statements: the release is out and every artifact is uploaded; with an active signing key every
-- artifact is signed with that very key; and a product that requires signing has such a key. It assumes
-- the primary keys.
pub publish_ships :
    (call : PublishCall) (id : String) (db : ReleaseTables) {r : Release}
    → Keys db
    → (Publish.publish call id db).1 ≡ ok r
    → let after = (Publish.publish call id db).0 in
      (shipped id after ≡ true)
      × Complete id after.artifacts
      × ((key : String)
          → key_answer call ≡ active_key key
          → count (unsigned id key) after.artifacts ≡ 0)
      × (call.require_signing ≡ some true → (key : String) × (key_answer call ≡ active_key key))
publish_ships call id db {r = r} k h =
    Published-found call id db (find_release_by_id (call.io 0 0) id db) k refl r h
