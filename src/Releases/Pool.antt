-- ===== src/Releases/Pool.antt =====
-- Which releases the queries of a feed return (internal/service/release.go over
-- internal/store/release.go).
use mathlib.Core.Path.{subst}
use mathlib.Core.Logic.Or
use mathlib.Core.List.{
  Mem, Mem-prop, mem-cons, mem-cons_self, mem-cons_of_mem, mem-append, mem-append_left,
  mem-append_right, not-mem-nil,
}
use mathlib.Core.List.Perm
use saas_admin.Prelude.{
  ℕ, zero, suc, ◌+◌, ◌≤◌, String, ◌≡◌, refl, sym, ap, ◌∙◌, inl, inr, Bool, true, ◌&&◌, some, List,
  [], ◌∷◌, ◌++◌, arith, ◌==◌, eq_iff, Bool-cases, Option-cases, All,
}
use saas_admin.Prelude.Table.{count}
use saas_admin.Prelude.Rows.{select_all}
use saas_admin.Prelude.Members.{
  mem-select_all, mem-select_all_of, mem-count_zero, count-perm, count_zero_of_mem,
}
use saas_admin.Releases.{Release, ReleaseTables}
use saas_admin.Releases.Feed.{
  FeedCode, in_feed, take, contains, channel_fallback_chain, list_published_releases_for_feed,
  feed_pool, comes_first, located, find_latest_published,
}
use saas_admin.Releases.Latest.{IsOrder, find_latest_published_inv}

-- A published release of the product, in a channel that the client sees, with an uploaded artifact for
-- its platform.
abbrev pub offered : String → String → String → ReleaseTables → Release → Bool
offered product_id channel platform db r =
    in_feed product_id r.channel platform db.artifacts r
    && contains r.channel (channel_fallback_chain channel)

-- `latestComputeWindow`: no channel has more than 1000 releases for the client.
abbrev pub WithinWindow : String → String → ReleaseTables → Type 0
WithinWindow product_id platform db =
    (ch : String) → count (in_feed product_id ch platform db.artifacts) db.releases ≤ 1000

every : Release → Bool
every r = true

mem-take : (n : ℕ) (l : List Release) {r : Release} → Mem r (take n l) → Mem r l
mem-take zero l m = absurd (not-mem-nil m)
mem-take (suc n) [] m = m
mem-take (suc n) (x ∷ l) {r = r} m =
    Or.elim Mem-prop (mem-cons.0 m) (λ q. rw q mem-cons_self)
      (λ k. mem-cons_of_mem x (mem-take n l {r = r} k))

take_all : (n : ℕ) (l : List Release) → count every l ≤ n → take n l ≡ l
unfolding count every
take_all zero [] h = refl
take_all zero (x ∷ l) h = absurd (omega arith)
take_all (suc n) [] h = refl
take_all (suc n) (x ∷ l) h = ap (λ t. x ∷ t) (take_all n l (omega arith))

count-every-select_all :
    (p : Release → Bool) (t : List Release) → count every (select_all p t) ≡ count p t
unfolding count select_all every
count-every-select_all p [] = refl
count-every-select_all p (r ∷ t) = ground (arith, count-every-select_all p t)

module _ (c : FeedCode) (o : IsOrder c) (product_id platform : String) (db : ReleaseTables) where
  -- The rows that the query of a channel returns.
  mem-listed :
      (runs : Bool) (ch : String) (n : ℕ) {l : List Release} {r : Release}
      → list_published_releases_for_feed c runs product_id ch platform n db ≡ some l
      → Mem r l
      → Mem r db.releases × (in_feed product_id ch platform db.artifacts r ≡ true)
  unfolding list_published_releases_for_feed
  mem-listed runs ch n {l = l} {r = r} e m =
      let p = in_feed product_id ch platform db.artifacts in
      let rows = select_all p db.releases in
      let q : l ≡ take n (c.order rows) = ground (arith, e) in
      mem-select_all p db.releases {a = r}
        ((Perm.mem_iff (o.keeps rows)).0 (mem-take n (c.order rows) {r = r} (subst (Mem r) q m)))

  -- Within the limit, it returns all of them.
  listed_all :
      (runs : Bool) (ch : String) (n : ℕ) {l : List Release} {r : Release}
      → list_published_releases_for_feed c runs product_id ch platform n db ≡ some l
      → count (in_feed product_id ch platform db.artifacts) db.releases ≤ n
      → in_feed product_id ch platform db.artifacts r ≡ true
      → Mem r db.releases
      → Mem r l
  unfolding list_published_releases_for_feed
  listed_all runs ch n {l = l} {r = r} e w h m =
      let p = in_feed product_id ch platform db.artifacts in
      let rows = select_all p db.releases in
      let z = count-perm every (o.keeps rows) in
      let y = count-every-select_all p db.releases in
      let k : take n (c.order rows) ≡ c.order rows =
        take_all n (c.order rows) (omega (arith, z, y, w)) in
      let q : c.order rows ≡ l = sym k ∙ (ground (arith, e)) in
      subst (Mem r) q
        ((Perm.mem_iff (o.keeps rows)).1 (mem-select_all_of p db.releases {a = r} h m))

  mem-pool :
      (io : ℕ → Bool) (n : ℕ) (channel : String) (chs : List String) {pool : List Release}
      {r : Release}
      → All (λ ch. contains ch (channel_fallback_chain channel) ≡ true) chs
      → feed_pool c io n product_id chs platform db ≡ some pool
      → Mem r pool
      → Mem r db.releases × (offered product_id channel platform db r ≡ true)
  unfolding feed_pool
  mem-pool io n channel [] {pool = pool} {r = r} a e m =
      let q : pool ≡ [] = ground (arith, e) in absurd (not-mem-nil (subst (Mem r) q m))
  mem-pool io n channel (ch ∷ chs) {pool = pool} {r = r} a e m =
      elim (Option-cases
        (list_published_releases_for_feed c (io n) product_id ch platform 1000 db)) [
          | inl f ↦ absurd (ground (arith, e, f))
          | inr (batch, f) ↦
              elim (Option-cases (feed_pool c io (n + 1) product_id chs platform db)) [
                | inl g ↦ absurd (ground (arith, e, f, g))
                | inr (rest, g) ↦
                    let q : pool ≡ batch ++ rest = ground (arith, e, f, g) in
                    Or.elim row_prop (mem-append.0 (subst (Mem r) q m))
                      (λ k.
                        let b = mem-listed (io n) ch 1000 {l = batch} {r = r} f k in
                        let s : r.channel ≡ ch = (eq_iff r.channel ch).0 (ground (arith, b.1)) in
                        (b.0, rw s (ground (arith, b.1, a.0))))
                      (λ k. mem-pool io (n + 1) channel chs {pool = rest} {r = r} a.1 g k)
              ]
        ]
    where
      row_prop : IsProp (Mem r db.releases × (offered product_id channel platform db r ≡ true))
      row_prop = hlevel

  pool_all :
      (io : ℕ → Bool) (n : ℕ) (chs : List String) {pool : List Release} {r : Release}
      → WithinWindow product_id platform db
      → feed_pool c io n product_id chs platform db ≡ some pool
      → in_feed product_id r.channel platform db.artifacts r ≡ true
      → contains r.channel chs ≡ true
      → Mem r db.releases
      → Mem r pool
  unfolding feed_pool
  pool_all io n [] w e h k m = absurd (cc)
  pool_all io n (ch ∷ chs) {pool = pool} {r = r} w e h k m =
      elim (Option-cases
        (list_published_releases_for_feed c (io n) product_id ch platform 1000 db)) [
          | inl f ↦ absurd (ground (arith, e, f))
          | inr (batch, f) ↦
              elim (Option-cases (feed_pool c io (n + 1) product_id chs platform db)) [
                | inl g ↦ absurd (ground (arith, e, f, g))
                | inr (rest, g) ↦
                    let q : batch ++ rest ≡ pool = ground (arith, e, f, g) in
                    elim (Bool-cases (ch == r.channel)) [
                      | inl i ↦
                          let s : r.channel ≡ ch = sym ((eq_iff ch r.channel).0 i) in
                          let b =
                            listed_all (io n) ch 1000 {l = batch} {r = r} f (w ch) (rw (← s) h) m in
                          subst (Mem r) q (mem-append_left rest b)
                      | inr i ↦
                          let b =
                            pool_all io (n + 1) chs {pool = rest} {r = r} w g h
                              (ground (arith, i, k)) m in
                          subst (Mem r) q (mem-append_right batch b)
                    ]
              ]
        ]

chain_closed :
    (channel : String)
    → All
        (λ ch. contains ch (channel_fallback_chain channel) ≡ true)
        (channel_fallback_chain channel)
unfolding channel_fallback_chain
chain_closed channel = elim (Bool-cases (channel == "dev")) [
  | inl e ↦ rw (channel_fallback_chain, e) (refl, (refl, (refl, (refl, tt))))
  | inr e ↦ elim (Bool-cases (channel == "alpha")) [
    | inl f ↦ rw (channel_fallback_chain, e, f) (refl, (refl, (refl, tt)))
    | inr f ↦ elim (Bool-cases (channel == "beta")) [
      | inl g ↦ rw (channel_fallback_chain, e, f, g) (refl, (refl, tt))
      | inr g ↦ rw (channel_fallback_chain, e, f, g) (refl, tt)
    ]
  ]
]

-- What the latest release is, whether or not the window holds all.
pub find_latest_published-offered :
    (c : FeedCode) (io : ℕ → Bool) (product_id channel platform : String) (db : ReleaseTables)
    {r : Release}
    → IsOrder c
    → find_latest_published c io product_id channel platform db ≡ located r
    → Mem r db.releases × (offered product_id channel platform db r ≡ true)
find_latest_published-offered c io product_id channel platform db {r = r} o h =
    let (pool, e, n, m) =
      find_latest_published_inv c io product_id channel platform db {r = r} o h in
    mem-pool c o product_id platform db io 0 channel (channel_fallback_chain channel) {pool = pool}
      {r = r} (chain_closed channel) e m

-- The latest release is a row of the table that the client is offered (published, of the product, in one
-- of its channels, with an uploaded artifact for its platform), and no row that it is offered has a newer
-- version. It assumes that the comparison of versions is an order, that ORDER BY permutes the rows, and
-- that no channel has more than 1000 such releases, the window of the query.
pub find_latest_published-Newest :
    (c : FeedCode) (io : ℕ → Bool) (product_id channel platform : String) (db : ReleaseTables)
    {r : Release}
    → IsOrder c
    → WithinWindow product_id platform db
    → find_latest_published c io product_id channel platform db ≡ located r
    → Mem r db.releases
      × (offered product_id channel platform db r ≡ true)
      × (count (λ s. offered product_id channel platform db s && comes_first c s r) db.releases ≡ 0)
find_latest_published-Newest c io product_id channel platform db {r = r} o w h =
    let (pool, e, n, m) =
      find_latest_published_inv c io product_id channel platform db {r = r} o h in
    let b = find_latest_published-offered c io product_id channel platform db {r = r} o h in
    let chs = channel_fallback_chain channel in
    (
      b.0,
      b.1,
      count_zero_of_mem (λ s. offered product_id channel platform db s && comes_first c s r)
          db.releases
          (λ s k. elim (Bool-cases (offered product_id channel platform db s)) [
            | inr f ↦ ground (arith, f)
            | inl f ↦
                let q =
                  mem-count_zero (λ x. comes_first c x r) pool {a = s} n
                    (pool_all c o product_id platform db io 0 chs {pool = pool} {r = s} w e
                      (ground (arith, f)) (ground (arith, f)) k) in
                ground (arith, f, q)
          ]),
    )
