-- ===== src/Usage/Warning.antt =====
-- The quota warning of internal/service/usage.go: once per crossing.
use saas_admin.Prelude.{
  ℕ, ◌+◌, ◌-◌, ◌≤◌, ◌≡◌, Bool, true, not, ◌&&◌, List, [], ◌∷◌, arith, if◌then◌else◌,
}
use saas_admin.Usage.Number.{positive_int64}
use saas_admin.Usage.{UsageEnv, crosses}

-- The warnings of a run of accepted quantities on a counter that stands at `used`.
abbrev pub crossings : UsageEnv → ℕ → ℕ → List ℕ → ℕ
crossings env limit used [] = 0
crossings env limit used (q ∷ qs) =
    (if crosses env limit q (used + q) then 1 else 0) + crossings env limit (used + q) qs

abbrev pub total : ℕ → List ℕ → ℕ
total used [] = used
total used (q ∷ qs) = total (used + q) qs

-- A higher reading reaches whatever a lower one reaches.
abbrev pub Monotone : (ℕ → ℕ → Bool) → Type 0
Monotone reaches = (a b limit : ℕ) → a ≤ b → reaches a limit ≡ true → reaches b limit ≡ true

total_le : (used : ℕ) (qs : List ℕ) → used ≤ total used qs
total_le used [] = omega arith
total_le used (q ∷ qs) = omega (arith, total_le (used + q) qs)

minus_plus : (u q : ℕ) → (u + q) - q ≡ u
minus_plus u q = omega arith

-- Over any run of accepted requests within a period the warning fires once if the run starts below
-- the threshold and ends at it or above, and otherwise never; it needs a positive limit and a
-- threshold that is on. The reading is monotone in the use.
pub crossings-once :
    (env : UsageEnv) (limit used : ℕ) (qs : List ℕ)
    → Monotone env.reaches
    → crossings env limit used qs ≡ (
        if positive_int64 limit
          && env.threshold_on
          && env.reaches (total used qs) limit
          && not (env.reaches used limit)
        then 1
        else 0)
crossings-once env limit used [] m = ground arith
crossings-once env limit used (q ∷ qs) m =
    let rest = crossings-once env limit (used + q) qs m in
    let up = m used (used + q) limit (omega arith) in
    let top = m (used + q) (total (used + q) qs) limit (total_le (used + q) qs) in
    rw (rest, minus_plus used q) (ground (arith, up, top))
