-- ===== src/Releases/Latest.antt =====
-- The order of `sortBySemverDesc` in internal/service/release.go, and what the latest release is.
use mathlib.Core.Path.{subst}
use saas_admin.Prelude.{
  ℕ, ◌+◌, String, ◌≡◌, refl, sym, ap, inl, inr, Bool, true, false, some, List, [], ◌∷◌, arith,
  if◌then◌else◌, Bool-cases, Option-cases,
}
use mathlib.Core.Logic.Or
use mathlib.Core.List.{Mem, Mem-prop, Perm, mem-cons, mem-cons_self, mem-cons_of_mem}
use saas_admin.Prelude.Table.{count, count_mono}
use saas_admin.Releases.{Release, ReleaseTables}
use saas_admin.Releases.Feed.{
  FeedCode, semver_normalize, comes_first, insert, sort_by_semver_desc, feed_pool,
  channel_fallback_chain, located, first_of, find_latest_published,
}

-- What the sort relies on: `semver.Compare` orders texts, and ORDER BY permutes the rows.
pub record IsOrder (c : FeedCode) : Type 0 where
  pub asym : (v w : String) → c.newer v w ≡ true → c.newer w v ≡ false
  pub between : (u v w : String) → c.newer v w ≡ true → c.newer u w ≡ false → c.newer v u ≡ true
  pub keeps : (l : List Release) → Perm (c.order l) l

comes_first-asym :
    (c : FeedCode) (o : IsOrder c) (r s : Release)
    → comes_first c r s ≡ true
    → comes_first c s r ≡ false
unfolding comes_first
comes_first-asym c o r s h =
    ground (arith, h, o.asym (semver_normalize c r.version) (semver_normalize c s.version))

comes_first_irrefl : (c : FeedCode) (o : IsOrder c) (r : Release) → comes_first c r r ≡ false
comes_first_irrefl c o r = elim (Bool-cases (comes_first c r r)) [
  | inl e ↦ comes_first-asym c o r r e
  | inr e ↦ e
]

comes_first-between :
    (c : FeedCode) (o : IsOrder c) (x r s : Release)
    → comes_first c x r ≡ false
    → comes_first c s r ≡ true
    → comes_first c s x ≡ true
unfolding comes_first
comes_first-between c o x r s n h = ground (
  arith,
  n,
  h,
  o.between (semver_normalize c x.version) (semver_normalize c s.version)
      (semver_normalize c r.version),
)

count-insert :
    (c : FeedCode) (q : Release → Bool) (r : Release) (l : List Release)
    → count q (insert c r l) ≡ (if q r then 1 else 0) + count q l
unfolding insert count
count-insert c q r [] = refl
count-insert c q r (x ∷ xs) = ground (arith, count-insert c q r xs)

-- The sort keeps the releases.
pub count-sort_by_semver_desc :
    (c : FeedCode) (q : Release → Bool) (l : List Release)
    → count q (sort_by_semver_desc c l) ≡ count q l
unfolding sort_by_semver_desc count
count-sort_by_semver_desc c q [] = refl
count-sort_by_semver_desc c q (r ∷ rs) =
    omega (arith, count-insert c q r (sort_by_semver_desc c rs), count-sort_by_semver_desc c q rs)

-- No release of the list comes before that one.
abbrev pub Newest : FeedCode → Release → List Release → Type 0
Newest c r l = count (λ s. comes_first c s r) l ≡ 0

Newest-cons :
    (c : FeedCode) (r x : Release) (rs : List Release)
    → comes_first c r x ≡ false
    → Newest c x rs
    → Newest c x (r ∷ rs)
unfolding count
Newest-cons c r x rs f n = rw f (omega (arith, n))

module _ (c : FeedCode) (o : IsOrder c) (r h : Release) (rs t : List Release) where
  Newest-insert :
      (x : Release) (xs : List Release)
      → Newest c x rs
      → insert c r (x ∷ xs) ≡ h ∷ t
      → Newest c h (r ∷ rs)
  unfolding insert
  Newest-insert x xs n e = elim (Bool-cases (comes_first c x r)) [
    | inl f ↦
        let q : x ≡ h = ground (arith, e, f) in
        subst (λ (y : Release). Newest c y (r ∷ rs)) q
          (Newest-cons c r x rs (comes_first-asym c o x r f) n)
    | inr f ↦
        let q : r ≡ h = ground (arith, e, f) in
        let m =
          count_mono (λ s. comes_first c s r) (λ s. comes_first c s x) rs
            (λ s g. comes_first-between c o x r s f g) in
        subst (λ (y : Release). Newest c y (r ∷ rs)) q
          (Newest-cons c r r rs (comes_first_irrefl c o r) (omega (arith, n, m)))
  ]

  Newest-sorted :
      (l : List Release)
      → sort_by_semver_desc c rs ≡ l
      → ((x : Release) (xs : List Release) → sort_by_semver_desc c rs ≡ x ∷ xs → Newest c x rs)
      → insert c r l ≡ h ∷ t
      → Newest c h (r ∷ rs)
  unfolding insert count
  Newest-sorted [] s ih e =
      let q : r ≡ h = ground (arith, e) in
      let z = count-sort_by_semver_desc c (λ x. comes_first c x r) rs in
      let y = ap (count (λ x. comes_first c x r)) s in
      subst (λ (y : Release). Newest c y (r ∷ rs)) q
        (Newest-cons c r r rs (comes_first_irrefl c o r) (omega (arith, z, y)))
  Newest-sorted (x ∷ xs) s ih e = Newest-insert x xs (ih x xs s) e

Newest-sort_by_semver_desc :
    (c : FeedCode) (o : IsOrder c) (l : List Release) (h : Release) (t : List Release)
    → sort_by_semver_desc c l ≡ h ∷ t
    → Newest c h l
unfolding sort_by_semver_desc
Newest-sort_by_semver_desc c o [] h t e = absurd (ground (arith, e))
Newest-sort_by_semver_desc c o (r ∷ rs) h t e =
    Newest-sorted c o r h rs t (sort_by_semver_desc c rs) refl
      (λ x xs f. Newest-sort_by_semver_desc c o rs x xs f) e

mem-insert :
    (c : FeedCode) (r : Release) (l : List Release) {s : Release}
    → Mem s (insert c r l)
    → Mem s (r ∷ l)
unfolding insert
mem-insert c r [] m = m
mem-insert c r (x ∷ xs) {s = s} m = elim (Bool-cases (comes_first c x r)) [
  | inl e ↦
      let k : insert c r (x ∷ xs) ≡ x ∷ insert c r xs = ground (arith, e) in
      Or.elim Mem-prop (mem-cons.0 (subst (Mem s) k m))
        (λ q. mem-cons_of_mem r (rw q mem-cons_self))
        (λ n.
          Or.elim Mem-prop (mem-cons.0 (mem-insert c r xs {s = s} n)) (λ q. rw q mem-cons_self)
            (λ o. mem-cons_of_mem r (mem-cons_of_mem x o)))
  | inr e ↦ let k : insert c r (x ∷ xs) ≡ r ∷ x ∷ xs = ground (arith, e) in subst (Mem s) k m
]

mem-sort_by_semver_desc :
    (c : FeedCode) (l : List Release) {s : Release} → Mem s (sort_by_semver_desc c l) → Mem s l
unfolding sort_by_semver_desc
mem-sort_by_semver_desc c [] m = m
mem-sort_by_semver_desc c (r ∷ rs) {s = s} m =
    Or.elim Mem-prop (mem-cons.0 (mem-insert c r (sort_by_semver_desc c rs) {s = s} m))
      (λ q. rw q mem-cons_self) (λ n. mem-cons_of_mem r (mem-sort_by_semver_desc c rs {s = s} n))

first-sorted :
    (c : FeedCode) (o : IsOrder c) (pool l : List Release) (r : Release)
    → sort_by_semver_desc c pool ≡ l
    → first_of l ≡ located r
    → Newest c r pool × Mem r pool
first-sorted c o pool [] r s e = absurd (ground (arith, e))
first-sorted c o pool (x ∷ xs) r s e =
    let q : x ≡ r = ground (arith, e) in
    let k : sort_by_semver_desc c pool ≡ r ∷ xs = rw (← q) s in
    (
      Newest-sort_by_semver_desc c o pool r xs k,
      mem-sort_by_semver_desc c pool {s = r} (subst (Mem r) (sym k) mem-cons_self),
    )

-- The latest release is one of those that the queries of the channels return, and the sort puts none of
-- these before it.
pub find_latest_published_inv :
    (c : FeedCode) (io : ℕ → Bool) (product_id channel platform : String) (db : ReleaseTables)
    {r : Release}
    → IsOrder c
    → find_latest_published c io product_id channel platform db ≡ located r
    → (pool : List Release) × (feed_pool c io 0 product_id
          (channel_fallback_chain channel)
          platform
          db
        ≡ some pool)
      × Newest c r pool
      × Mem r pool
unfolding find_latest_published
find_latest_published_inv c io product_id channel platform db {r = r} o h =
    elim (Option-cases (feed_pool c io 0 product_id (channel_fallback_chain channel) platform db)) [
      | inl n ↦ absurd (ground (arith, n, h))
      | inr (pool, e) ↦
          let f : first_of (sort_by_semver_desc c pool) ≡ located r = ground (arith, e, h) in
          let (n, k) = first-sorted c o pool (sort_by_semver_desc c pool) r refl f in
          (pool, e, n, k)
    ]
