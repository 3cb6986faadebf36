-- ===== src/Prelude/Members.antt =====
-- The rows of a table as its members, and the order in which a query returns them.
use mathlib.Core.Path.{◌≡◌, refl, sym, subst}
use mathlib.Core.Bool.{false, Bool, true, Bool-set}
use mathlib.Core.Logic.Or
use mathlib.Core.Logic.{inl, inr, ∥∥₁_elim}
use mathlib.Core.Option.{some}
use mathlib.Core.List.{
  List, [], ◌∷◌, Mem, Mem-prop, Perm, Permᴰ, mem-cons, mem-cons_self, mem-cons_of_mem, not-mem-nil,
}
use native.Mathlib.Nat.{ℕ_set}
use native.Mathlib.Omega.{arith}
use saas_admin.Prelude.Tests.{Bool-cases}
use saas_admin.Prelude.Table.{select, count}
use saas_admin.Prelude.Rows.{select_all}

module _ {ℓ} {A : Type ℓ} where
  -- What a SELECT returns is a row.
  pub mem-select : (p : A → Bool) (t : List A) {a : A} → select p t ≡ some a → Mem a t
  unfolding select
  mem-select p [] h = absurd (ground arith)
  mem-select p (r ∷ t) {a = a} h = elim (Bool-cases (p r)) [
    | inl e ↦ let s : r ≡ a = ground (arith, h, e) in rw s mem-cons_self
    | inr e ↦ mem-cons_of_mem r (mem-select p t {a = a} (ground (arith, h, e)))
  ]

  pub mem-select_all :
      (p : A → Bool) (t : List A) {a : A} → Mem a (select_all p t) → Mem a t × (p a ≡ true)
  unfolding select_all
  mem-select_all p [] m = absurd (not-mem-nil m)
  mem-select_all p (r ∷ t) {a = a} m = elim (Bool-cases (p r)) [
    | inl e ↦
        let k : select_all p (r ∷ t) ≡ r ∷ select_all p t = ground (arith, e) in
        Or.elim hit_prop (mem-cons.0 (subst (Mem a) k m)) (λ s. (rw s mem-cons_self, rw s e))
          (λ n. let ih = mem-select_all p t {a = a} n in (mem-cons_of_mem r ih.0, ih.1))
    | inr e ↦
        let k : select_all p (r ∷ t) ≡ select_all p t = ground (arith, e) in
        let ih = mem-select_all p t {a = a} (subst (Mem a) k m) in (mem-cons_of_mem r ih.0, ih.1)
  ]
    where
      hit_prop : IsProp (Mem a (r ∷ t) × (p a ≡ true))
      hit_prop = hlevel

  -- A row that meets the condition is returned.
  pub mem-select_all_of :
      (p : A → Bool) (t : List A) {a : A} → p a ≡ true → Mem a t → Mem a (select_all p t)
  unfolding select_all
  mem-select_all_of p [] h m = absurd (not-mem-nil m)
  mem-select_all_of p (r ∷ t) {a = a} h m =
      Or.elim Mem-prop (mem-cons.0 m)
        (λ s.
          let e : p r ≡ true = rw (← s) h in
          let k : select_all p (r ∷ t) ≡ r ∷ select_all p t = ground (arith, e) in
          subst (Mem a) (sym k) (rw s mem-cons_self))
        (λ n.
          let ih = mem-select_all_of p t {a = a} h n in
          elim (Bool-cases (p r)) [
            | inl e ↦
                let k : select_all p (r ∷ t) ≡ r ∷ select_all p t = ground (arith, e) in
                subst (Mem a) (sym k) (mem-cons_of_mem r ih)
            | inr e ↦
                let k : select_all p (r ∷ t) ≡ select_all p t = ground (arith, e) in
                subst (Mem a) (sym k) ih
          ])

  -- What no row meets, no member meets.
  pub mem-count_zero : (q : A → Bool) (t : List A) {a : A} → count q t ≡ 0 → Mem a t → q a ≡ false
  unfolding count
  mem-count_zero q [] z m = absurd (not-mem-nil m)
  mem-count_zero q (r ∷ t) {a = a} z m =
      Or.elim (Bool-set (q a) false) (mem-cons.0 m) (λ e. rw e (ground (arith, z)))
        (mem-count_zero q t {a = a} (ground (arith, z)))

  count-permd : (q : A → Bool) {l m : List A} → Permᴰ l m → count q l ≡ count q m
  unfolding count
  count-permd q Permᴰ.nil = refl
  count-permd q (Permᴰ.cons e d) = rw e (ground (arith, count-permd q d))
  count-permd q (Permᴰ.swap e f) = rw (e, f) (omega arith)
  count-permd q (Permᴰ.trans d e) = ground (arith, count-permd q d, count-permd q e)

  pub count-perm : (q : A → Bool) {l m : List A} → Perm l m → count q l ≡ count q m
  count-perm q {l} {m} d = ∥∥₁_elim d (ℕ_set (count q l) (count q m)) (count-permd q)

  -- A condition that no member meets is met by no row.
  pub count_zero_of_mem :
      (q : A → Bool) (t : List A) → ((a : A) → Mem a t → q a ≡ false) → count q t ≡ 0
  unfolding count
  count_zero_of_mem q [] h = refl
  count_zero_of_mem q (r ∷ t) h =
      let e : q r ≡ false = h r mem-cons_self in
      let z = count_zero_of_mem q t (λ a m. h a (mem-cons_of_mem r m)) in rw (e, z) refl
