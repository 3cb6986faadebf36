-- ===== src/Releases/Gate.antt =====
-- What the publish gate of internal/store/release.go guarantees of every release that has shipped.
use saas_admin.Prelude.{
  String, ◌≡◌, refl, ap, ◌∙◌, inl, inr, true, List, [], ◌∷◌, arith, Bool-cases,
}
use saas_admin.Prelude.Table.{count}
use saas_admin.Prelude.Rows.{count-select_all}
use saas_admin.Releases.{ReleaseArtifact, ReleaseTables, of_release, unfinished}
use saas_admin.Releases.Steps.{ReleaseOp, step, run}
use saas_admin.Releases.Keys.{Keys, step-Keys}
use saas_admin.Releases.Kept.{shipped, Complete, artifacts_of, step-Kept}

pub Complete-artifacts :
    (i : String) (db db' : ReleaseTables)
    → artifacts_of i db' ≡ artifacts_of i db
    → Complete i db.artifacts
    → Complete i db'.artifacts
Complete-artifacts i db db' e c =
    let a =
      λ (t : List ReleaseArtifact). count-select_all (of_release i) (of_release i) t (λ r h. h) in
    let b = λ (t : List ReleaseArtifact).
      count-select_all (of_release i) (unfinished i) t (λ r h. ground (arith, h)) in
    let x = ap (count (of_release i)) e in
    let y = ap (count (unfinished i)) e in
    (
      omega (arith, a db.artifacts, a db'.artifacts, x),
      omega (arith, b db.artifacts, b db'.artifacts, y),
    )

-- A release that has shipped is frozen: after any statements, failing or not, it is still published
-- or yanked, and has the artifacts it had, files, hashes and signatures included. It assumes the
-- primary keys.
pub run_frozen :
    (ops : List ReleaseOp) (i : String) (db : ReleaseTables)
    → Keys db
    → shipped i db ≡ true
    → (shipped i (run ops db) ≡ true) × (artifacts_of i (run ops db) ≡ artifacts_of i db)
unfolding run
run_frozen [] i db k h = (h, refl)
run_frozen (op ∷ ops) i db k h =
    let (h', e) = (step-Kept i op db k).0 h in
    let (h'', e') = run_frozen ops i (step op db) (step-Keys op db k) h' in (h'', e' ∙ e)

-- No incomplete release ships: if every shipped release has an artifact and only uploaded ones, the
-- same is true after any statements, failing or not. It assumes the primary keys.
pub run-Complete :
    (ops : List ReleaseOp) (i : String) (db : ReleaseTables)
    → Keys db
    → (shipped i db ≡ true → Complete i db.artifacts)
    → shipped i (run ops db) ≡ true
    → Complete i (run ops db).artifacts
unfolding run
run-Complete [] i db k c h = c h
run-Complete (op ∷ ops) i db k c h =
    run-Complete ops i (step op db) (step-Keys op db k)
      (λ h'. elim (Bool-cases (shipped i db)) [
        | inr n ↦ (step-Kept i op db k).1 n h'
        | inl s ↦ Complete-artifacts i db (step op db) ((step-Kept i op db k).0 s).1 (c s)
      ])
      h
