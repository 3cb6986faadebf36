-- ===== src/Prelude/Rows.antt =====
-- The rows that a query returns, and what a statement leaves of them.
use Prim.Native.Nat.{◌≤◌}
use mathlib.Core.Path.{◌≡◌, refl}
use mathlib.Core.Bool.{false, Bool, true}
use mathlib.Core.Option.{none, some}
use mathlib.Core.List.{List, [], ◌∷◌}
use native.Mathlib.Omega.{arith}
use mathlib.Core.Logic.{inl, inr}
use saas_admin.Prelude.Tests.{if◌then◌else◌, Bool-cases}
use saas_admin.Prelude.Table.{
  count_pos_of_found, select, count, update, delete, count-delete-le, count_pos_of_select,
  count_mono, count-eq-zero_of_select, update-none, delete-none, select-none_of_count,
}

module _ {ℓ} {A : Type ℓ} where
  -- SELECT … WHERE p
  unfoldable pub select_all : (A → Bool) → List A → List A
  select_all p [] = []
  select_all p (r ∷ t) = let rest = select_all p t in if p r then r ∷ rest else rest

  -- An update of the one row with a key, and what it does to the rows of another query.
  pub select_all-update_found :
      (p q : A → Bool) (f : A → A) (t : List A) {a : A}
      → select p t ≡ some a
      → count p t ≤ 1
      → q a ≡ false
      → ((r : A) → q (f r) ≡ q r)
      → select_all q (update p f t) ≡ select_all q t
  unfolding select_all select count update
  select_all-update_found p q f [] h c n k = refl
  select_all-update_found p q f (r ∷ t) {a = a} h c n k = elim (Bool-cases (p r)) [
    | inl e ↦
        let s : r ≡ a = ground (arith, h, e) in
        let n' : q r ≡ false = rw s n in
        let z : update p f t ≡ t = update-none p f t (ground (arith, c, e)) in
        rw (e, z, k r, n') refl
    | inr e ↦
        let z =
          select_all-update_found p q f t {a = a} (ground (arith, h, e)) (ground (arith, c, e)) n
            k in
        rw (e, z) refl
  ]

  pub select_all-delete_found :
      (p q : A → Bool) (t : List A) {a : A}
      → select p t ≡ some a
      → count p t ≤ 1
      → q a ≡ false
      → select_all q (delete p t) ≡ select_all q t
  unfolding select_all select count delete
  select_all-delete_found p q [] h c n = refl
  select_all-delete_found p q (r ∷ t) {a = a} h c n = elim (Bool-cases (p r)) [
    | inl e ↦
        let s : r ≡ a = ground (arith, h, e) in
        let n' : q r ≡ false = rw s n in
        let z : delete p t ≡ t = delete-none p t (ground (arith, c, e)) in rw (e, z, n') refl
    | inr e ↦
        let z =
          select_all-delete_found p q t {a = a} (ground (arith, h, e)) (ground (arith, c, e)) n in
        rw (e, z) refl
  ]

  pub select_all-update_other :
      (p q : A → Bool) (f : A → A) (t : List A)
      → ((r : A) → q r ≡ true → p r ≡ false)
      → ((r : A) → q (f r) ≡ q r)
      → select_all q (update p f t) ≡ select_all q t
  unfolding select_all update
  select_all-update_other p q f [] h k = refl
  select_all-update_other p q f (r ∷ t) h k =
      ground (arith, h r, k r, select_all-update_other p q f t h k)

  pub select_all-delete_other :
      (p q : A → Bool) (t : List A)
      → ((r : A) → q r ≡ true → p r ≡ false)
      → select_all q (delete p t) ≡ select_all q t
  unfolding select_all delete
  select_all-delete_other p q [] h = refl
  select_all-delete_other p q (r ∷ t) h = ground (arith, h r, select_all-delete_other p q t h)

  -- A count of rows that a query returns is the count among them.
  pub count-select_all :
      (p q : A → Bool) (t : List A)
      → ((r : A) → q r ≡ true → p r ≡ true)
      → count q (select_all p t) ≡ count q t
  unfolding select_all count
  count-select_all p q [] h = refl
  count-select_all p q (r ∷ t) h = ground (arith, h r, count-select_all p q t h)

  -- What an update leaves of the row that a key finds.
  pub select-update :
      (q p : A → Bool) (f : A → A) (t : List A)
      → ((r : A) → q (f r) ≡ q r)
      → select q (update p f t)
        ≡ elim (select q t) [ none ↦ none | some r ↦ some (if p r then f r else r) ]
  unfolding select update
  select-update q p f [] k = refl
  select-update q p f (r ∷ t) k = ground (arith, k r, select-update q p f t k)

  -- What a delete leaves of the one row with a key.
  pub select-delete :
      (q p : A → Bool) (t : List A)
      → count q t ≤ 1
      → select q (delete p t)
        ≡ elim (select q t) [ none ↦ none | some r ↦ if p r then none else some r ]
  unfolding select delete count
  select-delete q p [] c = refl
  select-delete q p (r ∷ t) c = elim (Bool-cases (q r)) [
    | inl e ↦
        let z : select q (delete p t) ≡ none =
          select-none_of_count q (delete p t) (ground (arith, c, e, count-delete-le q p t)) in
        ground (arith, e, z)
    | inr e ↦ ground (arith, e, select-delete q p t)
  ]

  -- A row that the unique key does not find in the table keeps the key unique.
  pub count-insert_fresh :
      (g q : A → Bool) (a : A) (t : List A)
      → select g t ≡ none
      → (q a ≡ true → (r : A) → q r ≡ true → g r ≡ true)
      → count q t ≤ 1
      → count q (a ∷ t) ≤ 1
  unfolding count
  count-insert_fresh g q a t n h c = elim (Bool-cases (q a)) [
    | inl e ↦ rw e (omega (arith, count_mono q g t (h e), count-eq-zero_of_select g t n))
    | inr e ↦ rw e (omega arith)
  ]

  -- The only row with a key is the one that a stronger condition finds.
  pub select_of_only :
      (p q : A → Bool) (t : List A) {a : A}
      → ((r : A) → p r ≡ true → q r ≡ true)
      → select p t ≡ some a
      → count q t ≤ 1
      → select q t ≡ some a
  unfolding select count
  select_of_only p q [] w h c = absurd (ground arith)
  select_of_only p q (r ∷ t) {a = a} w h c = elim (Bool-cases (p r)) [
    | inl e ↦ rw (w r e) (ground (arith, h, e))
    | inr e ↦
        let h' : select p t ≡ some a = ground (arith, h, e) in
        elim (Bool-cases (q r)) [
          | inl f ↦
              absurd (ground (arith, f, c, count_mono p q t w, count_pos_of_select p t {r = a} h'))
          | inr f ↦ rw f (select_of_only p q t {a = a} w h' (ground (arith, c, f)))
        ]
  ]

  -- The only row of a condition is the one that any SELECT finds in it.
  pub select_of_found :
      (g p : A → Bool) (t : List A) {a : A}
      → select g t ≡ some a
      → p a ≡ true
      → count p t ≤ 1
      → select p t ≡ some a
  unfolding select count
  select_of_found g p [] h k c = absurd (ground arith)
  select_of_found g p (r ∷ t) {a = a} h k c = elim (Bool-cases (g r)) [
    | inl e ↦ let s : r ≡ a = ground (arith, h, e) in rw (s, k) refl
    | inr e ↦
        let h' : select g t ≡ some a = ground (arith, h, e) in
        let n = count_pos_of_found g p t {a = a} h' k in
        let k' : p r ≡ false = ground (arith, n, c) in
        rw k' (select_of_found g p t {a = a} h' k (ground (arith, c, k')))
  ]
