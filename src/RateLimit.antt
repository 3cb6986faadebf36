-- ===== src/RateLimit.antt =====
-- internal/middleware/ratelimit.go: the in-memory backend.
pub mod Window
mod Tests
use saas_admin.Prelude.{
  ℕ, ◌+◌, ◌*◌, String, Bool, true, Option, none, some, ltb, leb, max, if◌then◌else◌, List, [], ◌∷◌,
}
use saas_admin.Prelude.Dict
use saas_admin.Prelude.Dict.{Dict}

pub record Visitor : Type 0 where
  pub count : ℕ
  pub window_start : ℕ
  pub window : ℕ

-- `memoryBackend.visitors`
abbrev pub Visitors : Type 0
Visitors = Dict Visitor

-- The entry that `Allow` leaves for its key.
unfoldable pub visit : ℕ → ℕ → Option Visitor → Visitor
visit now window none = record { count = 1; window_start = now; window = window }
visit now window (some v) =
    if leb (v.window_start + window) now
    then record { count = 1; window_start = now; window = window }
    else record v { count = v.count + 1 }

-- The answer of `Allow`.
unfoldable pub admits : ℕ → ℕ → ℕ → Option Visitor → Bool
admits now rate window none = true
admits now rate window (some v) =
    if leb (v.window_start + window) now then true else leb (v.count + 1) rate

unfoldable pub allow : ℕ → String → ℕ → ℕ → Visitors → Visitors × Bool
unfolding visit admits
allow now key rate window visitors =
    (Dict.put visitors key (visit now window (visitors key)), admits now rate window (visitors key))

abbrev pub minute : ℕ
minute = 60 * 1000000000

unfoldable pub sweep : ℕ → Option Visitor → Option Visitor
sweep now none = none
sweep now (some v) = if ltb (v.window_start + max v.window (5 * minute)) now then none else some v

unfoldable pub cleanup : ℕ → Visitors → Visitors
unfolding sweep
cleanup now visitors key = sweep now (visitors key)
