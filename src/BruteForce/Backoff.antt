-- ===== src/BruteForce/Backoff.antt =====
-- The lockout duration of internal/middleware/bruteforce.go in closed form.
use native.Mathlib.Nat.{pow-suc}
use saas_admin.Prelude.{
  ℕ, zero, suc, ◌*◌, ◌%◌, ◌^◌, ◌≤◌, ◌<◌, ◌≡◌, min, arith, inl, inr, Bool-cases, sym, ap, ◌∙◌,
}
use saas_admin.BruteForce.{backoff, gt_int64}

pow_pos : (n : ℕ) → 1 ≤ 2 ^ n
pow_pos zero = omega arith
pow_pos (suc n) = omega (arith, pow_pos n, pow-suc 2 n)

step_min : (n m d : ℕ) → m < d * 2 → min (d * 2 ^ suc n) m ≡ m
step_min n m d h = grind (arith, pow_pos n, pow-suc 2 n)

double_min : (n m d : ℕ) → min (d * 2 * 2 ^ n) m ≡ min (d * 2 ^ suc n) m
double_min n m d = ap (λ (t : ℕ). min t m) (grind (arith, pow-suc 2 n))

-- For a lockout that is at most the cap, and a cap below 2^62 nanoseconds, the duration after `n`
-- earlier lockouts is the smaller of `lockout * 2^n` and the cap; no doubling wraps.
pub backoff-eq-min : (n m d : ℕ) → d ≤ m → m < 2 ^ 62 → backoff n m d ≡ min (d * 2 ^ n) m
unfolding backoff
backoff-eq-min zero m d h k = omega arith
backoff-eq-min (suc n) m d h k =
    let small : (d * 2) % 2 ^ 64 ≡ d * 2 = omega arith in
    elim (Bool-cases (gt_int64 ((d * 2) % 2 ^ 64) m)) [
      | inl e ↦ rw e (sym (step_min n m d (ground arith)))
      | inr e ↦ rw (e, small) (backoff-eq-min n m (d * 2) (ground arith) k ∙ double_min n m d)
    ]
