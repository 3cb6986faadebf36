-- ===== src/RateLimit/Tests.antt =====
-- The theorems of the rate limiter at concrete data.
use saas_admin.Prelude.{ℕ, ◌+◌, ◌-◌, min, String, ◌≡◌, some, List, [], ◌∷◌, arith}
use saas_admin.Prelude.Dict
use saas_admin.RateLimit.{Visitors}
use saas_admin.RateLimit.Window.{admitted, calls_by, window_budget}

-- Three calls of one caller and one of another, in one window with a rate of two.
abbrev calls : List (ℕ × String)
calls = (11, "a") ∷ (12, "b") ∷ (13, "a") ∷ []

window_budget_example :
    admitted 2 60 "a" ((10, "a") ∷ calls) Dict.empty ≡ 1 + min (calls_by "a" calls) (2 - 1)
window_budget_example =
    window_budget 10 2 60 "a" calls Dict.empty tt (omega arith, (omega arith, (omega arith, tt)))

abbrev old_visitor : Visitors
old_visitor key = some (record { count = 5; window_start = 0; window = 60 })
