-- ===== src/Prelude/Table.antt =====
-- A table of the database as the list of its rows, and the SQL statements as functions on it.
use Prim.Native.Nat.{ℕ, ◌+◌, ◌≤◌}
use mathlib.Core.Path.{◌≡◌, refl, ap}
use mathlib.Core.Bool.{false, Bool, true}
use mathlib.Core.Option.{Option, none, some}
use mathlib.Core.List.{List, [], ◌∷◌}
use native.Mathlib.Omega.{arith}
use mathlib.Core.Logic.{inl, inr}
use saas_admin.Prelude.Tests.{if◌then◌else◌, Bool-cases}
use saas_admin.Prelude.Lists.{All}

module _ {ℓ} {A : Type ℓ} where
  -- SELECT … WHERE p LIMIT 1
  unfoldable pub select : (A → Bool) → List A → Option A
  select p [] = none
  select p (r ∷ t) = if p r then some r else select p t

  -- SELECT COUNT(*) … WHERE p
  unfoldable pub count : (A → Bool) → List A → ℕ
  count p [] = 0
  count p (r ∷ t) = (if p r then 1 else 0) + count p t

  -- UPDATE … SET f WHERE p
  unfoldable pub update : (A → Bool) → (A → A) → List A → List A
  update p f [] = []
  update p f (r ∷ t) = (if p r then f r else r) ∷ update p f t

  -- DELETE … WHERE p
  unfoldable pub delete : (A → Bool) → List A → List A
  delete p [] = []
  delete p (r ∷ t) = let rest = delete p t in if p r then rest else r ∷ rest

  -- An update that does not touch what is counted leaves the count.
  pub count-update :
      (q p : A → Bool) (f : A → A) (t : List A)
      → ((r : A) → p r ≡ true → q (f r) ≡ q r)
      → count q (update p f t) ≡ count q t
  unfolding count update
  count-update q p f [] h = refl
  count-update q p f (r ∷ t) h = ground (arith, h r, count-update q p f t h)

  pub count-delete-le : (q p : A → Bool) (t : List A) → count q (delete p t) ≤ count q t
  unfolding count delete
  count-delete-le q p [] = omega arith
  count-delete-le q p (r ∷ t) = ground (arith, count-delete-le q p t)

  -- Nothing is selected exactly when nothing is counted.
  pub count-eq-zero_of_select : (p : A → Bool) (t : List A) → select p t ≡ none → count p t ≡ 0
  unfolding count select
  count-eq-zero_of_select p [] h = refl
  count-eq-zero_of_select p (r ∷ t) h = ground (arith, count-eq-zero_of_select p t)

  -- What a SELECT returns meets its condition.
  pub select-eq-some : (p : A → Bool) (t : List A) {r : A} → select p t ≡ some r → p r ≡ true
  unfolding select
  select-eq-some p [] h = ground arith
  select-eq-some p (r ∷ t) {r = s} h = ground (arith, select-eq-some p t {r = s})

  pub count_pos_of_select :
      (p : A → Bool) (t : List A) {r : A} → select p t ≡ some r → 1 ≤ count p t
  unfolding select count
  count_pos_of_select p [] h = ground arith
  count_pos_of_select p (r ∷ t) {r = s} h = ground (arith, count_pos_of_select p t {r = s})

  -- A delete removes all that it names, and leaves what is counted if it names none of it.
  pub count-delete_self : (p : A → Bool) (t : List A) → count p (delete p t) ≡ 0
  unfolding count delete
  count-delete_self p [] = refl
  count-delete_self p (r ∷ t) = ground (arith, count-delete_self p t)

  pub count-delete_other :
      (q p : A → Bool) (t : List A)
      → ((r : A) → p r ≡ true → q r ≡ false)
      → count q (delete p t) ≡ count q t
  unfolding count delete
  count-delete_other q p [] h = refl
  count-delete_other q p (r ∷ t) h = ground (arith, h r, count-delete_other q p t h)

  -- An update of what the table does not have leaves it.
  pub update-none : (p : A → Bool) (f : A → A) (t : List A) → count p t ≡ 0 → update p f t ≡ t
  unfolding count update
  update-none p f [] h = refl
  update-none p f (r ∷ t) h = ground (arith, update-none p f t)

  pub select-none_of_count : (p : A → Bool) (t : List A) → count p t ≡ 0 → select p t ≡ none
  unfolding count select
  select-none_of_count p [] h = refl
  select-none_of_count p (r ∷ t) h = ground (arith, select-none_of_count p t)

  pub count_pos_of_found :
      (g p : A → Bool) (t : List A) {a : A} → select g t ≡ some a → p a ≡ true → 1 ≤ count p t
  unfolding select count
  count_pos_of_found g p [] h c = absurd (ground arith)
  count_pos_of_found g p (r ∷ t) {a = a} h c = elim (Bool-cases (g r)) [
    | inl e ↦ let s : r ≡ a = ground (arith, h, e) in rw (s, c) (omega arith)
    | inr e ↦ let z = count_pos_of_found g p t {a = a} (ground (arith, h, e)) c in omega (arith, z)
  ]

  -- An update of the only row of its condition, a row that some SELECT found, moves a count by what
  -- it does to that row.
  pub count-update_found :
      (g p q : A → Bool) (f : A → A) (t : List A) {a : A}
      → select g t ≡ some a
      → p a ≡ true
      → count p t ≤ 1
      → count q (update p f t) + (if q a then 1 else 0) ≡ count q t + (if q (f a) then 1 else 0)
  unfolding count select update
  count-update_found g p q f [] h k c = absurd (ground arith)
  count-update_found g p q f (r ∷ t) {a = a} h k c = elim (Bool-cases (g r)) [
    | inl e ↦
        let s : r ≡ a = ground (arith, h, e) in
        let k' : p r ≡ true = rw s k in
        let z : update p f t ≡ t = update-none p f t (ground (arith, c, k')) in
        rw (k', z, s) (omega arith)
    | inr e ↦
        let h' : select g t ≡ some a = ground (arith, h, e) in
        let n = count_pos_of_found g p t {a = a} h' k in
        let k' : p r ≡ false = ground (arith, n, c) in
        let z = count-update_found g p q f t {a = a} h' k (ground (arith, c, k')) in
        rw k' (omega (arith, z))
  ]

  pub count_mono :
      (q p : A → Bool) (t : List A) → ((r : A) → q r ≡ true → p r ≡ true) → count q t ≤ count p t
  unfolding count
  count_mono q p [] w = omega arith
  count_mono q p (r ∷ t) w = ground (arith, w r, count_mono q p t w)

  -- If the only row of a condition misses a stronger one, then nothing meets the stronger one.
  pub select-none_of_only :
      (q p : A → Bool) (t : List A) {a : A}
      → ((r : A) → q r ≡ true → p r ≡ true)
      → select p t ≡ some a
      → count p t ≤ 1
      → q a ≡ false
      → select q t ≡ none
  unfolding count select
  select-none_of_only q p [] w h c n = refl
  select-none_of_only q p (r ∷ t) {a = a} w h c n = elim (Bool-cases (p r)) [
    | inl e ↦
        let s : r ≡ a = ground (arith, h, e) in
        let n' : q r ≡ false = rw s n in
        let z : count p t ≡ 0 = ground (arith, c, e) in
        let k : count q t ≡ 0 = omega (arith, z, count_mono q p t w) in
        rw n' (select-none_of_count q t k)
    | inr e ↦
        let n' : q r ≡ false = ground (arith, w r, e) in
        rw n' (select-none_of_only q p t {a = a} w (ground (arith, h, e)) (ground (arith, c, e)) n)
  ]

  -- Two updates of the same rows are one.
  pub update-update :
      (p : A → Bool) (f g : A → A) (t : List A)
      → ((r : A) → p (f r) ≡ p r)
      → update p g (update p f t) ≡ update p (λ r. g (f r)) t
  unfolding update
  update-update p f g [] h = refl
  update-update p f g (r ∷ t) h = elim (Bool-cases (p r)) [
    | inl e ↦ rw (e, h r, e) (ap (λ l. g (f r) ∷ l) (update-update p f g t h))
    | inr e ↦ rw (e, e) (ap (λ l. r ∷ l) (update-update p f g t h))
  ]

  -- A delete of what the table does not have leaves it.
  pub delete-none : (p : A → Bool) (t : List A) → count p t ≡ 0 → delete p t ≡ t
  unfolding count delete
  delete-none p [] h = refl
  delete-none p (r ∷ t) h = ground (arith, delete-none p t)

  pub select-delete_other :
      (q p : A → Bool) (t : List A)
      → ((r : A) → p r ≡ true → q r ≡ false)
      → select q (delete p t) ≡ select q t
  unfolding select delete
  select-delete_other q p [] h = refl
  select-delete_other q p (r ∷ t) h = ground (arith, h r, select-delete_other q p t h)

module _ {ℓ κ} {A : Type ℓ} where
  pub All-update :
      (P : A → Type κ) (p : A → Bool) (f : A → A) (t : List A)
      → ((r : A) → p r ≡ true → P r → P (f r))
      → All P t
      → All P (update p f t)
  unfolding update
  All-update P p f [] h a = a
  All-update P p f (r ∷ t) h a = elim (Bool-cases (p r)) [
    | inl e ↦ rw e (h r e a.0, All-update P p f t h a.1)
    | inr e ↦ rw e (a.0, All-update P p f t h a.1)
  ]

  pub All-delete : (P : A → Type κ) (p : A → Bool) (t : List A) → All P t → All P (delete p t)
  unfolding delete
  All-delete P p [] a = a
  All-delete P p (r ∷ t) a = elim (Bool-cases (p r)) [
    | inl e ↦ rw e (All-delete P p t a.1)
    | inr e ↦ rw e (a.0, All-delete P p t a.1)
  ]
