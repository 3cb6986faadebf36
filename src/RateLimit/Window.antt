-- ===== src/RateLimit/Window.antt =====
-- The budget of a window of internal/middleware/ratelimit.go, and what its sweep leaves alone.
use saas_admin.Prelude.{
  ℕ, ◌+◌, ◌-◌, ◌≤◌, ◌<◌, min, String, ◌≡◌, refl, ap, ◌∙◌, inl, inr, true, false, ◌&&◌, Option, none,
  some, List, [], ◌∷◌, arith, ◌==◌, eq_iff, eq_refl, leb, if◌then◌else◌, Bool-cases, All,
}
use saas_admin.RateLimit.{Visitor, Visitors, visit, admits, allow, sweep, cleanup}

-- How many of the calls by `key` in a trace of calls by any keys are admitted.
unfoldable pub admitted : ℕ → ℕ → String → List (ℕ × String) → Visitors → ℕ
admitted rate window key [] visitors = 0
admitted rate window key ((now, k) ∷ calls) visitors =
    (if k == key && (allow now k rate window visitors).1 then 1 else 0)
    + admitted rate window key calls (allow now k rate window visitors).0

-- How many calls of a trace are made by `key`.
abbrev pub calls_by : String → List (ℕ × String) → ℕ
calls_by key [] = 0
calls_by key ((now, k) ∷ calls) = (if k == key then 1 else 0) + calls_by key calls

abbrev pub Before : ℕ → List (ℕ × String) → Type 0
Before deadline = All (λ (call : ℕ × String). call.0 < deadline)

-- No window of this length is open: there is no entry, or its window is over.
abbrev pub Closed : ℕ → ℕ → Option Visitor → Type 0
Closed now window none = Unit
Closed now window (some v) = v.window_start + window ≤ now

-- The entry, if there is one, was opened with this window.
abbrev pub OpenedWith : ℕ → Option Visitor → Type 0
OpenedWith window none = Unit
OpenedWith window (some v) = v.window ≡ window

allow_other :
    (now rate window : ℕ) (k key : String) (visitors : Visitors)
    → k == key ≡ false
    → (allow now k rate window visitors).0 key ≡ visitors key
unfolding allow
allow_other now rate window k key visitors h = rw h refl

allow_open :
    (now rate window : ℕ) (k key : String) (visitors : Visitors) (v : Visitor)
    → k == key ≡ true
    → visitors key ≡ some v
    → now < v.window_start + window
    → ((allow now k rate window visitors).0 key ≡ some (record v { count = v.count + 1 }))
      × ((allow now k rate window visitors).1 ≡ leb (v.count + 1) rate)
unfolding allow visit admits
allow_open now rate window k key visitors v h e b =
    let at : visitors k ≡ some v = ap visitors ((eq_iff k key).0 h) ∙ e in
    (rw (h, at) (ground arith), rw at (ground arith))

visit_fresh :
    (now rate window : ℕ) (entry : Option Visitor)
    → Closed now window entry
    → (visit now window entry ≡ record { count = 1; window_start = now; window = window })
      × (admits now rate window entry ≡ true)
unfolding visit admits
visit_fresh now rate window none h = (refl, refl)
visit_fresh now rate window (some v) h = ground arith

-- The entry of a call that finds no open window.
allow_fresh :
    (now rate window : ℕ) (key : String) (visitors : Visitors)
    → Closed now window (visitors key)
    → ((allow now key rate window visitors).0 key
        ≡ some (record { count = 1; window_start = now; window = window }))
      × ((allow now key rate window visitors).1 ≡ true)
unfolding allow
allow_fresh now rate window key visitors h =
    let (entry, answer) = visit_fresh now rate window (visitors key) h in
    (rw eq_refl (ap some entry), answer)

running :
    (rate window : ℕ) (key : String) (calls : List (ℕ × String)) (visitors : Visitors) (v : Visitor)
    → visitors key ≡ some v
    → Before (v.window_start + window) calls
    → admitted rate window key calls visitors ≡ min (calls_by key calls) (rate - v.count)
unfolding admitted
running rate window key [] visitors v e b = omega arith
running rate window key ((now, k) ∷ calls) visitors v e b = elim (Bool-cases (k == key)) [
  | inl same ↦
      let (entry, answer) = allow_open now rate window k key visitors v same e b.0 in
      let rest =
        running rate window key calls (allow now k rate window visitors).0
          (record v { count = v.count + 1 }) entry b.1 in
      rw (same, answer, rest) (ground arith)
  | inr other ↦
      let rest =
        running rate window key calls (allow now k rate window visitors).0 v
          (allow_other now rate window k key visitors other ∙ e) b.1 in
      rw (other, rest) (ground arith)
]

-- From the call at `now` that opens a window for `key` (it has no entry, or its window is over),
-- the calls before the window ends, by any keys, are admitted for `key` as follows: the first one
-- always, and of the others as many as the rate leaves. So the budget is the rate (at least one),
-- whatever the other keys do.
pub window_budget :
    (now rate window : ℕ) (key : String) (calls : List (ℕ × String)) (visitors : Visitors)
    → Closed now window (visitors key)
    → Before (now + window) calls
    → admitted rate window key ((now, key) ∷ calls) visitors
      ≡ 1 + min (calls_by key calls) (rate - 1)
unfolding admitted
window_budget now rate window key calls visitors c b =
    let (entry, answer) = allow_fresh now rate window key visitors c in
    let rest =
      running rate window key calls (allow now key rate window visitors).0
        (record { count = 1; window_start = now; window = window }) entry b in
    rw (eq_refl, answer, rest) refl

visit-sweep :
    (now later rate window : ℕ) (entry : Option Visitor)
    → OpenedWith window entry
    → now ≤ later
    → (visit later window (sweep now entry) ≡ visit later window entry)
      × (admits later rate window (sweep now entry) ≡ admits later rate window entry)
unfolding visit admits sweep
visit-sweep now later rate window none o h = (refl, refl)
visit-sweep now later rate window (some v) o h = ground arith

-- A sweep changes no later answer: at any time from the sweep on, a call with the window that the
-- entry of its key, if any, was opened with is answered as without
-- it and leaves the same entry for its key. So a sweep never gives a caller a fresh allowance.
pub allow-cleanup :
    (now later rate window : ℕ) (key : String) (visitors : Visitors)
    → OpenedWith window (visitors key)
    → now ≤ later
    → ((allow later key rate window (cleanup now visitors)).1
        ≡ (allow later key rate window visitors).1)
      × ((allow later key rate window (cleanup now visitors)).0 key
          ≡ (allow later key rate window visitors).0 key)
unfolding allow cleanup
allow-cleanup now later rate window key visitors o h =
    let (entry, answer) = visit-sweep now later rate window (visitors key) o h in
    (answer, rw eq_refl (ap some entry))
