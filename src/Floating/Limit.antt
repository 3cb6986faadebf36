-- ===== src/Floating/Limit.antt =====
-- The session limit of a floating plan (internal/service/floating.go, `CheckOut`).
use saas_admin.Prelude.{ℕ, suc, ◌≤◌, String, ◌≡◌, ◌⊎◌, none, some, List, ◌==◌}
use saas_admin.Prelude.Table.{count}
use saas_admin.Apperr.{Result, ok, err}
use saas_admin.Model.{License}
use saas_admin.Floating.{
  FloatingSession, FloatingState, count_active_floating, CheckOutOutcome, checked_out,
  floating_limit_reached, not_checked_out, floating_plan,
}

-- The table's primary key, and its unique constraint.
abbrev pub PrimaryKey : List FloatingSession → Type 0
PrimaryKey t = (id : String) → count (λ s. s.id == id) t ≤ 1

-- How a checkout may change the number of live sessions of a license: not at all, or by one session
-- of the license that it was for, within the limit.
abbrev pub Sessions : String → ℕ → ℕ → String → List FloatingSession → List FloatingSession → Type 0
Sessions license_id now max_sessions i t t' =
    (count_active_floating now i t' ≡ count_active_floating now i t)
    ⊎ ((license_id ≡ i)
        × (count_active_floating now i t' ≡ suc (count_active_floating now i t))
        × (count_active_floating now i t' ≤ max_sessions))

abbrev pub OutcomeSessions :
    FloatingSession → ℕ → ℕ → String → List FloatingSession → CheckOutOutcome → Type 0
OutcomeSessions sess now max_sessions i t (checked_out id t' fresh) =
    Sessions sess.license_id now max_sessions i t t'
OutcomeSessions sess now max_sessions i t floating_limit_reached = Unit
OutcomeSessions sess now max_sessions i t not_checked_out = Unit

-- How a request may change the live sessions of the license `i`, when it found that license.
abbrev pub Change : ℕ → String → FloatingState → FloatingState → Result License → Type 0
Change now i w w' (err e) =
    count_active_floating now i w'.sessions ≡ count_active_floating now i w.sessions
Change now i w w' (ok lic) =
    Sessions lic.id now (elim (floating_plan lic) [ none ↦ 0 | some plan ↦ plan.max_activations ]) i
      w.sessions w'.sessions
