-- ===== src/Events/Others.antt =====
-- What a claim, its completion or its release leaves of the rows of another provider
-- (internal/payment/stripe.go, `reserve` and `release`).
use saas_admin.Prelude.{
  ℕ, String, ◌≡◌, refl, ◌∙◌, inl, inr, Bool, true, false, Option, none, some, List, ◌∷◌, arith,
  ◌==◌, eq_iff, Bool-cases, Option-cases,
}
use saas_admin.Prelude.Table.{select, delete}
use saas_admin.Database.{Io}
use saas_admin.Events.{
  ProcessedEvent, is_event, recorded, has_processed_event, claim_processed_event,
  delete_processed_event, or_else, stale, release_stale_processed_event, stale_claim_age,
  reserve_ours, take_over, reserve_theirs, reserve, release,
}
use saas_admin.Events.Exclusive.{recorded-delete}

-- Another provider's row of an event.
module _ (provider event : String) where
  -- The row is there.
  abbrev pub Stays : List ProcessedEvent → Type 0
  Stays t = recorded provider event t ≡ true

  pub Stays-new : (r : ProcessedEvent) (t : List ProcessedEvent) → Stays t → Stays (r ∷ t)
  unfolding select
  Stays-new r t s = elim (Bool-cases (is_event provider event r)) [
    | inl e ↦ rw (recorded, e) refl
    | inr e ↦ rw (recorded, e) s
  ]

  -- A claim that answers.
  pub Stays-claim :
      (runs : Bool) (now : ℕ) (p id : String) (t : List ProcessedEvent)
      {out : Bool × List ProcessedEvent}
      → claim_processed_event runs now p id t ≡ some out
      → Stays t
      → Stays out.1
  unfolding claim_processed_event
  Stays-claim true now p id t h s = elim (Bool-cases (recorded p id t)) [
    | inl e ↦ ground (arith, h, e, s)
    | inr e ↦
        let z = Stays-new (record { provider = p; event_id = id; created_at = now }) t s in
        ground (arith, h, e, z)
  ]
  Stays-claim false now p id t h s = absurd (cc)

  module _ (p id : String) (n : (p == provider) ≡ false) where
    is_other : (r : ProcessedEvent) → is_event p id r ≡ true → is_event provider event r ≡ false
    is_other r h =
        let q : r.provider ≡ p = (eq_iff r.provider p).0 (ground (arith, h)) in rw (q, n) refl

    pub Stays-delete : (t : List ProcessedEvent) → Stays t → Stays (delete (is_event p id) t)
    Stays-delete t s = recorded-delete provider event (is_event p id) t is_other ∙ s

    pub Stays-or_else :
        (runs : Bool) (t : List ProcessedEvent)
        → Stays t
        → Stays (or_else t (delete_processed_event runs p id t))
    unfolding delete_processed_event
    Stays-or_else true t s = Stays-delete t s
    Stays-or_else false t s = s

    pub Stays-stale :
        (now : ℕ) (t : List ProcessedEvent)
        → Stays t
        → Stays (delete (stale stale_claim_age now p id) t)
    Stays-stale now t s =
        recorded-delete provider event (stale stale_claim_age now p id) t
          (λ r h. is_other r (ground (arith, h)))
        ∙ s

  module _ (io : Io) (now : ℕ) (done_provider claim_provider id : String)
      (d : (done_provider == provider) ≡ false) (c : (claim_provider == provider) ≡ false) where
    Stays-reserve_ours :
        (t : List ProcessedEvent)
        → Stays t
        → Stays (reserve_ours io now done_provider claim_provider id t).0
    unfolding reserve_ours
    Stays-reserve_ours t s =
        let t' = or_else t (delete_processed_event (io 1) claim_provider id t) in
        let s' = Stays-or_else claim_provider id c (io 1) t s in
        elim (Option-cases (claim_processed_event (io 2) now claim_provider id t')) [
          | inl e ↦ rw (reserve_ours, e) (Stays-or_else done_provider id d (io 3) t' s')
          | inr (p, e) ↦
              let z = Stays-claim (io 2) now claim_provider id t' {out = p} e s' in
              elim (Bool-cases p.0) [
                | inl f ↦ rw (reserve_ours, e, f) z
                | inr f ↦ rw (reserve_ours, e, f) (Stays-or_else done_provider id d (io 3) p.1 z)
              ]
        ]

    Stays-take_over :
        (t : List ProcessedEvent) → Stays t → Stays (take_over io now claim_provider id t).0
    unfolding take_over release_stale_processed_event
    Stays-take_over t s =
        let old = stale stale_claim_age now claim_provider id in
        let t' = delete old t in
        let s' = Stays-stale claim_provider id c now t s in
        elim (Bool-cases (io 3)) [
          | inr e ↦ rw (take_over, release_stale_processed_event, e) s
          | inl e ↦ elim (Option-cases (select old t)) [
            | inl f ↦ rw (take_over, release_stale_processed_event, e, f) s'
            | inr (r, f) ↦
                elim (Option-cases (claim_processed_event (io 4) now claim_provider id t')) [
                  | inl g ↦ rw (take_over, release_stale_processed_event, e, f, g) s'
                  | inr (q, g) ↦
                      let z = Stays-claim (io 4) now claim_provider id t' {out = q} g s' in
                      rw (take_over, release_stale_processed_event, e, f, g) z
                ]
          ]
        ]

    Stays-reserve_theirs :
        (fulfilled : Option (Option Bool)) (t : List ProcessedEvent) (a : Option Bool)
        → has_processed_event (io 1) claim_provider id t ≡ a
        → Stays t
        → Stays (reserve_theirs io now claim_provider id fulfilled t).0
    unfolding reserve_theirs
    Stays-reserve_theirs fulfilled t none e s = rw (reserve_theirs, e) s
    Stays-reserve_theirs fulfilled t (some false) e s = rw (reserve_theirs, e) s
    Stays-reserve_theirs none t (some true) e s = rw (reserve_theirs, e) (Stays-take_over t s)
    Stays-reserve_theirs (some none) t (some true) e s = rw (reserve_theirs, e) s
    Stays-reserve_theirs (some (some true)) t (some true) e s = rw (reserve_theirs, e) s
    Stays-reserve_theirs (some (some false)) t (some true) e s =
        rw (reserve_theirs, e) (Stays-take_over t s)

    pub Stays-reserve :
        (fulfilled : Option (Option Bool)) (t : List ProcessedEvent)
        → Stays t
        → Stays (reserve io now done_provider claim_provider id fulfilled t).0
    unfolding reserve
    Stays-reserve fulfilled t s =
        elim (Option-cases (claim_processed_event (io 0) now done_provider id t)) [
          | inl e ↦ rw (reserve, e) s
          | inr (p, e) ↦
              let z = Stays-claim (io 0) now done_provider id t {out = p} e s in
              elim (Bool-cases p.0) [
                | inl f ↦ rw (reserve, e, f) (Stays-reserve_ours p.1 z)
                | inr f ↦ rw (reserve, e, f) (Stays-reserve_theirs fulfilled t _ refl s)
              ]
        ]

  module _ (io : Io) (done_provider claim_provider id : String)
      (d : (done_provider == provider) ≡ false) (c : (claim_provider == provider) ≡ false) where
    pub Stays-release :
        (t : List ProcessedEvent) → Stays t → Stays (release io done_provider claim_provider id t).0
    unfolding release delete_processed_event
    Stays-release t s =
        let t' = delete (is_event done_provider id) t in
        let s' = Stays-delete done_provider id d t s in
        elim (Bool-cases (io 0)) [
          | inr e ↦ rw (release, delete_processed_event, e) s
          | inl e ↦ elim (Bool-cases (io 1)) [
            | inr f ↦ rw (release, delete_processed_event, e, f) s'
            | inl f ↦
                rw (release, delete_processed_event, e, f) (Stays-delete claim_provider id c t' s')
          ]
        ]
