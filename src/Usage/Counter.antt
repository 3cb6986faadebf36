-- ===== src/Usage/Counter.antt =====
-- The counters of internal/store/usage.go under IncrementUsageCounterWithLimit.
use mathlib.Core.Path.{subst}
use saas_admin.Prelude.{
  ℕ, ◌+◌, ◌-◌, ◌≤◌, ◌<◌, String, ◌≡◌, refl, sym, ap, ◌∙◌, ◌≢◌, inl, inr, Bool, true, false, ◌&&◌,
  Option, none, some, List, [], ◌∷◌, arith, eq_iff, eq_refl, ltb, ltb→lt, Bool-cases, Option-cases,
}
use saas_admin.Prelude.Table.{select}
use saas_admin.Prelude.Table.{update}
use saas_admin.Database.{Io, Found, found, no_rows, failed, query}
use saas_admin.Usage.Number.{positive_int64}
use saas_admin.Usage.{
  UsageCounter, CounterKey, has_key, fresh_counter, insert_counter, max_int64, IncrementOutcome,
  accepted, refused, quantity_too_large, not_counted, add_used, increment_from,
  increment_usage_counter_with_limit,
}

abbrev pub used_of : Option UsageCounter → ℕ
used_of none = 0
used_of (some c) = c.used

-- What a counter stands at: a row that is not there stands at 0.
unfoldable pub used_at : CounterKey → List UsageCounter → ℕ
used_at k t = used_of (select (has_key k) t)

same_key : (k j : CounterKey) (c : UsageCounter) → has_key k c ≡ true → has_key j c ≡ true → k ≡ j
same_key k j c h h' =
    let a = (eq_iff c.license_id k.license_id).0 (ground (arith, h)) in
    let b = (eq_iff c.feature k.feature).0 (ground (arith, h)) in
    let d = (eq_iff c.period k.period).0 (ground (arith, h)) in
    let e = (eq_iff c.period_key k.period_key).0 (ground (arith, h)) in
    let a' = (eq_iff c.license_id j.license_id).0 (ground (arith, h')) in
    let b' = (eq_iff c.feature j.feature).0 (ground (arith, h')) in
    let d' = (eq_iff c.period j.period).0 (ground (arith, h')) in
    let e' = (eq_iff c.period_key j.period_key).0 (ground (arith, h')) in cc

fresh_has_key : (id : String) (k : CounterKey) → has_key k (fresh_counter id k) ≡ true
fresh_has_key id k =
    rw (eq_refl k.license_id, eq_refl k.feature, eq_refl k.period, eq_refl k.period_key) refl

select-fresh :
    (id : String) (k j : CounterKey) (t : List UsageCounter)
    → select (has_key k) t ≡ none
    → used_of (select (has_key j) (fresh_counter id k ∷ t)) ≡ used_of (select (has_key j) t)
unfolding select
select-fresh id k j t n = elim (Bool-cases (has_key j (fresh_counter id k))) [
  | inl e ↦
      let p : k ≡ j = same_key k j (fresh_counter id k) (fresh_has_key id k) e in
      let n' : select (has_key j) t ≡ none = subst (λ x. select (has_key x) t ≡ none) p n in
      rw (e, n') refl
  | inr e ↦ rw e refl
]

used_at-insert_counter :
    (id : String) (k j : CounterKey) (t : List UsageCounter)
    → used_at j (insert_counter id k t) ≡ used_at j t
unfolding used_at
used_at-insert_counter id k j t = elim (Option-cases (select (has_key k) t)) [
  | inl n ↦ rw (used_at, insert_counter, n) (select-fresh id k j t n)
  | inr s ↦ rw (insert_counter, s.1) refl
]

used-update_other :
    (k j : CounterKey) (q : ℕ) (t : List UsageCounter)
    → k ≢ j
    → used_of (select (has_key j) (update (has_key k) (add_used q) t))
      ≡ used_of (select (has_key j) t)
unfolding select update
used-update_other k j q [] n = refl
used-update_other k j q (c ∷ t) n = elim (Bool-cases (has_key k c)) [
  | inl e ↦ elim (Bool-cases (has_key j c)) [
    | inl e' ↦ absurd (n (same_key k j c e e'))
    | inr e' ↦ rw (e, e') (used-update_other k j q t n)
  ]
  | inr e ↦ elim (Bool-cases (has_key j c)) [
    | inl e' ↦ rw (e, e') refl
    | inr e' ↦ rw (e, e') (used-update_other k j q t n)
  ]
]

used-update_self :
    (k : CounterKey) (q : ℕ) (t : List UsageCounter) {c : UsageCounter}
    → select (has_key k) t ≡ some c
    → used_of (select (has_key k) (update (has_key k) (add_used q) t)) ≡ c.used + q
unfolding select update
used-update_self k q [] h = absurd (ground arith)
used-update_self k q (d ∷ t) {c = c} h = elim (Bool-cases (has_key k d)) [
  | inl e ↦ let s : d ≡ c = ground (arith, h, e) in rw (e, e, s) refl
  | inr e ↦ rw (e, e) (used-update_self k q t {c = c} (ground (arith, h, e)))
]

used_at-update_other :
    (k j : CounterKey) (q : ℕ) (t : List UsageCounter)
    → k ≢ j
    → used_at j (update (has_key k) (add_used q) t) ≡ used_at j t
unfolding used_at
used_at-update_other k j q t n = used-update_other k j q t n

used_at-update_self :
    (k : CounterKey) (q : ℕ) (t : List UsageCounter) {c : UsageCounter}
    → select (has_key k) t ≡ some c
    → used_at k (update (has_key k) (add_used q) t) ≡ c.used + q
unfolding used_at
used_at-update_self k q t h = used-update_self k q t h

-- What an increment of `k` by `q` promises, for the counter `j`.
abbrev pub Increment :
    CounterKey → CounterKey → ℕ → ℕ → List UsageCounter → IncrementOutcome → Type 0
Increment j k q limit t (accepted used t') =
    (used ≡ used_at k t + q)
    × (used ≤ max_int64)
    × (positive_int64 limit ≡ true → used ≤ limit)
    × (used_at k t' ≡ used)
    × (k ≢ j → used_at j t' ≡ used_at j t)
Increment j k q limit t (refused used t') =
    (used ≡ used_at k t)
    × (positive_int64 limit ≡ true)
    × (limit < used + q)
    × (used_at j t' ≡ used_at j t)
Increment j k q limit t quantity_too_large = max_int64 < used_at k t + q
Increment j k q limit t not_counted = Unit

stands :
    (id : String) (k : CounterKey) (t : List UsageCounter) {c : UsageCounter}
    → select (has_key k) (insert_counter id k t) ≡ some c
    → used_at k t ≡ c.used
unfolding used_at
stands id k t s = sym (used_at-insert_counter id k k t) ∙ ap used_of s

select_of_query :
    (runs : Bool) (p : UsageCounter → Bool) (t : List UsageCounter) {c : UsageCounter}
    → query runs (select p t) ≡ found c
    → select p t ≡ some c
select_of_query runs p t h = ground arith

Increment-increment_from :
    (io : Io) (id : String) (k j : CounterKey) (q limit : ℕ) (t : List UsageCounter)
    (c : UsageCounter) (b₀ b₁ b₂ b₃ : Bool)
    → select (has_key k) (insert_counter id k t) ≡ some c
    → c.used ≤ max_int64
    → ltb (max_int64 - c.used) q ≡ b₀
    → (positive_int64 limit && ltb limit (c.used + q)) ≡ b₁
    → io 3 ≡ b₂
    → io 4 ≡ b₃
    → Increment j k q limit t (increment_from io k q limit c.used (insert_counter id k t))
unfolding increment_from
Increment-increment_from io id k j q limit t c true b₁ b₂ b₃ s l e₀ e₁ e₂ e₃ =
    rw (e₀, increment_from) (omega (arith, stands id k t s, ltb→lt (max_int64 - c.used) q e₀))
Increment-increment_from io id k j q limit t c false true false b₃ s l e₀ e₁ e₂ e₃ =
    rw (e₀, increment_from, e₁, e₂) tt
Increment-increment_from io id k j q limit t c false true true b₃ s l e₀ e₁ e₂ e₃ =
    rw (e₀, increment_from, e₁, e₂)
      (
        sym (stands id k t s),
        ground (arith, e₁),
        ground (arith, e₁),
        used_at-insert_counter id k j t,
      )
Increment-increment_from io id k j q limit t c false false false b₃ s l e₀ e₁ e₂ e₃ =
    rw (e₀, increment_from, e₁, e₂) tt
Increment-increment_from io id k j q limit t c false false true false s l e₀ e₁ e₂ e₃ =
    rw (e₀, increment_from, e₁, e₂, e₃) tt
Increment-increment_from io id k j q limit t c false false true true s l e₀ e₁ e₂ e₃ =
    rw (e₀, increment_from, e₁, e₂, e₃)
      (
        omega (arith, stands id k t s),
        ground (arith, e₀, l),
        λ p. ground (arith, e₁, p),
        used_at-update_self k q (insert_counter id k t) s,
        λ n. used_at-update_other k j q (insert_counter id k t) n ∙ used_at-insert_counter id k j t,
      )

Increment-increment_usage_counter_with_limit :
    (io : Io) (id : String) (k j : CounterKey) (q limit : ℕ) (t : List UsageCounter)
    (f : Found UsageCounter) (b : Bool)
    → used_at k t ≤ max_int64
    → (io 0 && io 1) ≡ b
    → query (io 2) (select (has_key k) (insert_counter id k t)) ≡ f
    → Increment j k q limit t (increment_usage_counter_with_limit io id k q limit t)
unfolding increment_usage_counter_with_limit
Increment-increment_usage_counter_with_limit io id k j q limit t f false l e₀ e₁ =
    rw (e₀, increment_usage_counter_with_limit) tt
Increment-increment_usage_counter_with_limit io id k j q limit t no_rows true l e₀ e₁ =
    rw (e₀, e₁, increment_usage_counter_with_limit) tt
Increment-increment_usage_counter_with_limit io id k j q limit t failed true l e₀ e₁ =
    rw (e₀, e₁, increment_usage_counter_with_limit) tt
Increment-increment_usage_counter_with_limit io id k j q limit t (found c) true l e₀ e₁ =
    let s = select_of_query (io 2) (has_key k) (insert_counter id k t) e₁ in
    rw (e₀, e₁, increment_usage_counter_with_limit)
      (Increment-increment_from io id k j q limit t c _ _ _ _ s (omega (arith, stands id k t s, l))
        refl refl refl refl)

-- The increment of a counter by a quantity within int64 ends in one of four ways. Accepted: the
-- counter stands at its old value plus the quantity, which is within int64 and, under a positive
-- limit, within the limit, and every other counter is as it was. Refused: the limit is positive, the
-- sum would exceed it, and every counter is as it was. Too large: the sum would exceed int64. Or a
-- statement failed.
pub increment_lem :
    (io : Io) (id : String) (k j : CounterKey) (q limit : ℕ) (t : List UsageCounter)
    → used_at k t ≤ max_int64
    → Increment j k q limit t (increment_usage_counter_with_limit io id k q limit t)
increment_lem io id k j q limit t l =
    Increment-increment_usage_counter_with_limit io id k j q limit t _ _ l refl refl

-- An inserted counter is there.
select-insert_counter :
    (id : String) (k : CounterKey) (t : List UsageCounter)
    → (c : UsageCounter) × (select (has_key k) (insert_counter id k t) ≡ some c)
unfolding select
select-insert_counter id k t = elim (Option-cases (select (has_key k) t)) [
  | inl n ↦ (fresh_counter id k, rw (insert_counter, n, select, fresh_has_key id k) refl)
  | inr (c, s) ↦ (c, rw (insert_counter, s) s)
]

-- Where the statements run, a limit that is not positive lets every quantity within int64 through.
pub accepted_lem :
    (io : Io) (id : String) (k : CounterKey) (q limit : ℕ) (t : List UsageCounter)
    → ((n : ℕ) → io n ≡ true)
    → used_at k t + q ≤ max_int64
    → positive_int64 limit ≡ false
    → (t' : List UsageCounter) × (increment_usage_counter_with_limit io id k q limit t
        ≡ accepted (used_at k t + q) t')
unfolding increment_usage_counter_with_limit increment_from
accepted_lem io id k q limit t runs l n =
    let (c, s) = select-insert_counter id k t in
    let z = stands id k t s in
    let fits : ltb (max_int64 - c.used) q ≡ false = ground (arith, z, l) in
    (
      update (has_key k) (add_used q) (insert_counter id k t),
      rw
          (
            increment_usage_counter_with_limit,
            runs 0,
            runs 1,
            runs 2,
            s,
            increment_from,
            fits,
            n,
            runs 3,
            runs 4,
            z,
          )
          refl,
    )
