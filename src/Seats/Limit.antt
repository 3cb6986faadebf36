-- ===== src/Seats/Limit.antt =====
-- The seats of a license under `AddSeatWithinLimit` of internal/store/seats.go.
use mathlib.Core.Path.{subst}
use saas_admin.Prelude.{
  ℕ, suc, ◌+◌, ◌≤◌, ◌<◌, String, ◌≡◌, refl, ◌⊎◌, inl, inr, Bool, true, false, ◌&&◌, Option, none,
  some, List, ◌∷◌, arith, ◌==◌, eq_iff, eq_refl, ltb, leb, if◌then◌else◌,
}
use saas_admin.Prelude.Table.{
  select, count, update, count-update, count-update_found, select-eq-some,
}
use saas_admin.Database.{Io, Found, found, no_rows, failed, query}
use saas_admin.Seats.Table.{
  Seat, present, live, live_for, count_active_seats, last_removed, reinvite, restore,
  SeatAddOutcome, seat_created, seat_restored, seat_existed, seat_limit_reached, seat_not_added,
  has_id, take_seat, within_seats, live_seat, add_seat_within_limit,
}

-- The primary key of the table.
abbrev pub PrimaryKey : List Seat → Type 0
PrimaryKey t = (id : String) → count (has_id id) t ≤ 1

-- How the live seats of `i` may change: not at all, or by one seat of the license of the request,
-- within its maximum if it has one.
abbrev pub SeatChange : Seat → ℕ → String → List Seat → List Seat → Type 0
SeatChange seat max_seats i t t' =
    (count_active_seats i t' ≡ count_active_seats i t)
    ⊎ ((seat.license_id ≡ i)
        × (count_active_seats i t' ≡ suc (count_active_seats i t))
        × (0 < max_seats → count_active_seats i t' ≤ max_seats))

abbrev pub OutcomeChange : Seat → ℕ → String → List Seat → SeatAddOutcome → Type 0
OutcomeChange seat max_seats i t (seat_created s t') = SeatChange seat max_seats i t t'
OutcomeChange seat max_seats i t (seat_restored s t') = SeatChange seat max_seats i t t'
OutcomeChange seat max_seats i t (seat_existed s t') = SeatChange seat max_seats i t t'
OutcomeChange seat max_seats i t seat_limit_reached = Unit
OutcomeChange seat max_seats i t seat_not_added = Unit

pub select_of_query :
    (runs : Bool) (p : Seat → Bool) (t : List Seat) {s : Seat}
    → query runs (select p t) ≡ found s
    → select p t ≡ some s
select_of_query runs p t h = ground arith

-- There is room for one more seat of the license.
abbrev Room : Seat → ℕ → List Seat → Type 0
Room seat max_seats t = 0 < max_seats → count (live seat.license_id) t < max_seats

one_more :
    (seat : Seat) (max_seats : ℕ) (i : String) (t t' : List Seat) (b : Bool)
    → (seat.license_id == i) ≡ b
    → count (live i) t' ≡ count (live i) t + (if b then 1 else 0)
    → Room seat max_seats t
    → SeatChange seat max_seats i t t'
unfolding count_active_seats
one_more seat max_seats i t t' false e c r = inl (omega (arith, c))
one_more seat max_seats i t t' true e c r =
    let p : seat.license_id ≡ i = (eq_iff seat.license_id i).0 e in
    let r' : 0 < max_seats → count (live i) t < max_seats =
      subst (λ j. 0 < max_seats → count (live j) t < max_seats) p r in
    inr (p, omega (arith, c), λ h. omega (arith, c, r' h))

outcome-take_seat :
    (io : Io) (seat : Seat) (max_seats : ℕ) (i : String) (t : List Seat) (f : Found Seat) (b : Bool)
    → PrimaryKey t
    → seat.removed_at ≡ none
    → Room seat max_seats t
    → query (io 4) (select (last_removed seat.license_id seat.email t) t) ≡ f
    → (io 5 && io 6) ≡ b
    → OutcomeChange seat max_seats i t (take_seat io seat t)
unfolding take_seat count
outcome-take_seat io seat max_seats i t failed b k n r e e₀ = rw (e, take_seat) tt
outcome-take_seat io seat max_seats i t no_rows false k n r e e₀ = rw (e, e₀, take_seat) tt
outcome-take_seat io seat max_seats i t no_rows true k n r e e₀ =
    rw (e, e₀, take_seat) (one_more seat max_seats i t (seat ∷ t) _ refl (ground (arith, n)) r)
outcome-take_seat io seat max_seats i t (found s) false k n r e e₀ = rw (e, e₀, take_seat) tt
outcome-take_seat io seat max_seats i t (found s) true k n r e e₀ =
    let g = last_removed seat.license_id seat.email t in
    let h = select_of_query (io 4) g t e in
    let c : g s ≡ true = select-eq-some g t h in
    let z =
      count-update_found g (has_id s.id) (live i) (restore seat) t {a = s} h (eq_refl s.id)
        (k s.id) in
    let same : s.license_id ≡ seat.license_id =
      (eq_iff s.license_id seat.license_id).0 (ground (arith, c)) in
    let gone : present s ≡ false = ground (arith, c) in
    rw (e, e₀, take_seat)
      (one_more seat max_seats i t (update (has_id s.id) (restore seat) t) _ refl
        (ground (arith, z, same, gone)) r)

outcome-within_seats :
    (io : Io) (seat : Seat) (max_seats : ℕ) (i : String) (t : List Seat) (b₀ b₁ b₂ : Bool)
    → PrimaryKey t
    → seat.removed_at ≡ none
    → ltb 0 max_seats ≡ b₀
    → io 3 ≡ b₁
    → leb max_seats (count_active_seats seat.license_id t) ≡ b₂
    → OutcomeChange seat max_seats i t (within_seats io seat max_seats t)
unfolding within_seats count_active_seats
outcome-within_seats io seat max_seats i t false b₁ b₂ k n e₀ e₁ e₂ =
    rw (e₀, within_seats)
      (outcome-take_seat io seat max_seats i t _ _ k n (λ h. absurd (ground (arith, h, e₀))) refl
        refl)
outcome-within_seats io seat max_seats i t true false b₂ k n e₀ e₁ e₂ = rw (e₀, e₁, within_seats) tt
outcome-within_seats io seat max_seats i t true true true k n e₀ e₁ e₂ =
    rw (e₀, e₁, within_seats, e₂) tt
outcome-within_seats io seat max_seats i t true true false k n e₀ e₁ e₂ =
    rw (e₀, e₁, within_seats, e₂)
      (outcome-take_seat io seat max_seats i t _ _ k n (λ h. ground (arith, e₂)) refl refl)

outcome-live_seat :
    (io : Io) (seat s : Seat) (max_seats : ℕ) (i : String) (t : List Seat) (a : Option ℕ)
    (b₀ b₁ : Bool)
    → s.accepted_at ≡ a
    → io 3 ≡ b₀
    → (io 3 && io 4) ≡ b₁
    → OutcomeChange seat max_seats i t (live_seat io seat s t)
unfolding live_seat count_active_seats
outcome-live_seat io seat s max_seats i t (some at) false b₁ e e₀ e₁ = rw (e, live_seat, e₀) tt
outcome-live_seat io seat s max_seats i t (some at) true b₁ e e₀ e₁ =
    rw (e, live_seat, e₀) (inl refl)
outcome-live_seat io seat s max_seats i t none b₀ false e e₀ e₁ = rw (e, live_seat, e₁) tt
outcome-live_seat io seat s max_seats i t none b₀ true e e₀ e₁ =
    rw (e, live_seat, e₁)
      (inl (count-update (live i) (has_id s.id) (reinvite seat) t (λ r h. refl)))

outcome_by :
    (io : Io) (seat : Seat) (max_seats : ℕ) (i : String) (t : List Seat) (f : Found Seat) (b : Bool)
    → PrimaryKey t
    → seat.removed_at ≡ none
    → query (io 2) (select (live_for seat.license_id seat.email) t) ≡ f
    → (io 0 && io 1) ≡ b
    → OutcomeChange seat max_seats i t (add_seat_within_limit io seat max_seats t)
unfolding add_seat_within_limit
outcome_by io seat max_seats i t f false k n e e₀ = rw (e₀, add_seat_within_limit) tt
outcome_by io seat max_seats i t failed true k n e e₀ = rw (e₀, e, add_seat_within_limit) tt
outcome_by io seat max_seats i t no_rows true k n e e₀ =
    rw (e₀, e, add_seat_within_limit)
      (outcome-within_seats io seat max_seats i t _ _ _ k n refl refl refl)
outcome_by io seat max_seats i t (found s) true k n e e₀ =
    rw (e₀, e, add_seat_within_limit)
      (outcome-live_seat io seat s max_seats i t _ _ _ refl refl refl)

-- Adding a seat changes the number of live seats of a license in no case but one: for the license of
-- the request it may add exactly one, by a new row or by restoring a removed one, and then the sum is
-- within the maximum, if the plan has one. It assumes the table's primary key, and that the seat of
-- the request is not a removed one.
pub add_seat_within_limit-OutcomeChange :
    (io : Io) (seat : Seat) (max_seats : ℕ) (i : String) (t : List Seat)
    → PrimaryKey t
    → seat.removed_at ≡ none
    → OutcomeChange seat max_seats i t (add_seat_within_limit io seat max_seats t)
add_seat_within_limit-OutcomeChange io seat max_seats i t k n =
    outcome_by io seat max_seats i t _ _ k n refl refl
