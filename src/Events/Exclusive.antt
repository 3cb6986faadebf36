-- ===== src/Events/Exclusive.antt =====
-- Who owns a webhook event (internal/payment/stripe.go, `reserve`).
use saas_admin.Prelude.{
  ℕ, ◌+◌, ◌≤◌, String, ◌≡◌, refl, ◌∙◌, ◌≢◌, Bool, true, false, Option, none, some, List, ◌∷◌, arith,
  ◌==◌, eq_iff, eq_refl, ltb,
}
use saas_admin.Prelude.Table.{
  select, count, delete, count-eq-zero_of_select, count_mono, select-none_of_count, delete-none,
  select-delete_other,
}
use saas_admin.Database.{Io}
use saas_admin.Events.{
  ProcessedEvent, is_event, recorded, has_processed_event, claim_processed_event,
  delete_processed_event, or_else, stale, release_stale_processed_event, stale_claim_age, Reserved,
  taken, reserve_ours, take_over, reserve_theirs, reserve,
}

-- An event in flight: both rows are there, and no marker is stale.
abbrev pub Held : ℕ → String → String → String → List ProcessedEvent → Type 0
Held later done_provider claim_provider id t =
    (recorded done_provider id t ≡ true)
    × (recorded claim_provider id t ≡ true)
    × (count (stale stale_claim_age later claim_provider id) t ≡ 0)

-- A caller that finds the event in flight does not get it, and changes nothing.
abbrev pub LeftAlone : List ProcessedEvent → List ProcessedEvent × Reserved → Type 0
LeftAlone t out = (out.0 ≡ t) × (out.1 ≢ taken)

LeftAlone-take_over :
    (io : Io) (later : ℕ) (claim_provider id : String) (t : List ProcessedEvent) (b : Bool)
    → count (stale stale_claim_age later claim_provider id) t ≡ 0
    → io 3 ≡ b
    → LeftAlone t (take_over io later claim_provider id t)
unfolding take_over release_stale_processed_event
LeftAlone-take_over io later claim_provider id t false z e =
    rw (e, take_over, release_stale_processed_event) (refl, λ h. absurd (cc))
LeftAlone-take_over io later claim_provider id t true z e =
    let p = stale stale_claim_age later claim_provider id in
    rw (e, take_over, release_stale_processed_event, select-none_of_count p t z, delete-none p t z)
      (refl, λ h. absurd (cc))

LeftAlone-reserve_theirs :
    (io : Io) (later : ℕ) (claim_provider id : String) (fulfilled : Option (Option Bool))
    (t : List ProcessedEvent) (b : Bool)
    → recorded claim_provider id t ≡ true
    → count (stale stale_claim_age later claim_provider id) t ≡ 0
    → io 1 ≡ b
    → LeftAlone t (reserve_theirs io later claim_provider id fulfilled t)
unfolding reserve_theirs has_processed_event
LeftAlone-reserve_theirs io later claim_provider id fulfilled t false r z e =
    rw (e, reserve_theirs, has_processed_event) (refl, λ h. absurd (cc))
LeftAlone-reserve_theirs io later claim_provider id none t true r z e =
    rw (e, reserve_theirs, has_processed_event, r)
      (LeftAlone-take_over io later claim_provider id t _ z refl)
LeftAlone-reserve_theirs io later claim_provider id (some none) t true r z e =
    rw (e, reserve_theirs, has_processed_event, r) (refl, λ h. absurd (cc))
LeftAlone-reserve_theirs io later claim_provider id (some (some true)) t true r z e =
    rw (e, reserve_theirs, has_processed_event, r) (refl, λ h. absurd (cc))
LeftAlone-reserve_theirs io later claim_provider id (some (some false)) t true r z e =
    rw (e, reserve_theirs, has_processed_event, r)
      (LeftAlone-take_over io later claim_provider id t _ z refl)

LeftAlone-reserve :
    (io : Io) (later : ℕ) (done_provider claim_provider id : String)
    (fulfilled : Option (Option Bool)) (t : List ProcessedEvent) (b : Bool)
    → Held later done_provider claim_provider id t
    → io 0 ≡ b
    → LeftAlone t (reserve io later done_provider claim_provider id fulfilled t)
unfolding reserve claim_processed_event
LeftAlone-reserve io later done_provider claim_provider id fulfilled t false h e =
    rw (e, reserve, claim_processed_event) (refl, λ x. absurd (cc))
LeftAlone-reserve io later done_provider claim_provider id fulfilled t true h e =
    rw (e, reserve, claim_processed_event, h.0)
      (LeftAlone-reserve_theirs io later claim_provider id fulfilled t _ h.1 h.2 refl)

not_recorded :
    (provider id : String) (t : List ProcessedEvent)
    → recorded provider id t ≡ false
    → select (is_event provider id) t ≡ none
not_recorded provider id t h = ground arith

pub recorded-delete :
    (provider id : String) (p : ProcessedEvent → Bool) (t : List ProcessedEvent)
    → ((r : ProcessedEvent) → p r ≡ true → is_event provider id r ≡ false)
    → recorded provider id (delete p t) ≡ recorded provider id t
recorded-delete provider id p t h =
    rw (recorded, select-delete_other (is_event provider id) p t h) refl

pub other_provider :
    (done_provider claim_provider id : String) (r : ProcessedEvent)
    → (claim_provider == done_provider) ≡ false
    → is_event claim_provider id r ≡ true
    → is_event done_provider id r ≡ false
other_provider done_provider claim_provider id r d h =
    let p : r.provider ≡ claim_provider =
      (eq_iff r.provider claim_provider).0 (ground (arith, h)) in
    rw (p, d) refl

-- A marker that was just written makes the event one in flight for the time of a claim.
Held-claim :
    (now later : ℕ) (done_provider claim_provider id : String) (t : List ProcessedEvent)
    → (claim_provider == done_provider) ≡ false
    → now ≤ later
    → later ≤ now + stale_claim_age
    → recorded done_provider id t ≡ true
    → recorded claim_provider id t ≡ false
    → Held later done_provider claim_provider id
        (record { provider = claim_provider; event_id = id; created_at = now } ∷ t)
unfolding select count
Held-claim now later done_provider claim_provider id t d l l' r n =
    let z : count (is_event claim_provider id) t ≡ 0 =
      count-eq-zero_of_select (is_event claim_provider id) t (not_recorded claim_provider id t n) in
    let old : count (stale stale_claim_age later claim_provider id) t ≡ 0 = omega (
      arith,
      z,
      count_mono (stale stale_claim_age later claim_provider id) (is_event claim_provider id) t
          (λ x h. ground (arith, h)),
    ) in
    let fresh : ltb (now + stale_claim_age) later ≡ false = ground (arith, l') in
    (
      rw (recorded, d) r,
      rw (recorded, eq_refl claim_provider, eq_refl id) refl,
      rw (eq_refl claim_provider, eq_refl id, fresh, old) refl,
    )

pub still_recorded :
    (runs : Bool) (done_provider claim_provider id : String) (t : List ProcessedEvent)
    → (claim_provider == done_provider) ≡ false
    → recorded done_provider id t ≡ true
    → recorded done_provider id (or_else t (delete_processed_event runs claim_provider id t)) ≡ true
unfolding delete_processed_event
still_recorded false done_provider claim_provider id t d r = r
still_recorded true done_provider claim_provider id t d r =
    recorded-delete done_provider id (is_event claim_provider id) t
      (λ x h. other_provider done_provider claim_provider id x d h)
    ∙ r

Held-reserve_ours :
    (io : Io) (now later : ℕ) (done_provider claim_provider id : String) (t : List ProcessedEvent)
    (b₂ b₃ : Bool)
    → (claim_provider == done_provider) ≡ false
    → now ≤ later
    → later ≤ now + stale_claim_age
    → recorded done_provider id t ≡ true
    → io 2 ≡ b₂
    → recorded claim_provider id (or_else t (delete_processed_event (io 1) claim_provider id t))
      ≡ b₃
    → (reserve_ours io now done_provider claim_provider id t).1 ≡ taken
    → Held later done_provider claim_provider id
        (reserve_ours io now done_provider claim_provider id t).0
unfolding reserve_ours claim_processed_event
Held-reserve_ours io now later done_provider claim_provider id t false b₃ d l l' r e₂ e₃ =
    rw (reserve_ours, e₂, claim_processed_event) (λ h. absurd (cc))
Held-reserve_ours io now later done_provider claim_provider id t true true d l l' r e₂ e₃ =
    rw (reserve_ours, e₂, claim_processed_event, e₃) (λ h. absurd (cc))
Held-reserve_ours io now later done_provider claim_provider id t true false d l l' r e₂ e₃ =
    let t' = or_else t (delete_processed_event (io 1) claim_provider id t) in
    rw (reserve_ours, e₂, claim_processed_event, e₃)
      (λ h.
        Held-claim now later done_provider claim_provider id t' d l l'
          (still_recorded (io 1) done_provider claim_provider id t d r) e₃)

Held-take_over :
    (io : Io) (now later : ℕ) (done_provider claim_provider id : String) (t : List ProcessedEvent)
    (b₃ b₄ b : Bool) (o : Option ProcessedEvent)
    → (claim_provider == done_provider) ≡ false
    → now ≤ later
    → later ≤ now + stale_claim_age
    → recorded done_provider id t ≡ true
    → io 3 ≡ b₃
    → io 4 ≡ b₄
    → select (stale stale_claim_age now claim_provider id) t ≡ o
    → recorded claim_provider id (delete (stale stale_claim_age now claim_provider id) t) ≡ b
    → (take_over io now claim_provider id t).1 ≡ taken
    → Held later done_provider claim_provider id (take_over io now claim_provider id t).0
unfolding take_over release_stale_processed_event claim_processed_event
Held-take_over io now later done_provider claim_provider id t false b₄ b o d l l' r e₃ e₄ s e =
    rw (take_over, e₃, release_stale_processed_event) (λ h. absurd (cc))
Held-take_over io now later done_provider claim_provider id t true b₄ b none d l l' r e₃ e₄ s e =
    rw (take_over, e₃, release_stale_processed_event, s) (λ h. absurd (cc))
Held-take_over io now later done_provider claim_provider id t true false b (some x) d l l' r e₃ e₄ s
      e =
    rw (take_over, e₃, release_stale_processed_event, s, e₄, claim_processed_event)
      (λ h. absurd (cc))
Held-take_over io now later done_provider claim_provider id t true true true (some x) d l l' r e₃ e₄
      s e =
    rw (take_over, e₃, release_stale_processed_event, s, e₄, claim_processed_event, e)
      (λ h. absurd (cc))
Held-take_over io now later done_provider claim_provider id t true true false (some x) d l l' r e₃
      e₄ s e =
    let p = stale stale_claim_age now claim_provider id in
    let r' : recorded done_provider id (delete p t) ≡ true =
      recorded-delete done_provider id p t
        (λ y h. other_provider done_provider claim_provider id y d (ground (arith, h)))
      ∙ r in
    rw (take_over, e₃, release_stale_processed_event, s, e₄, claim_processed_event, e)
      (λ h. Held-claim now later done_provider claim_provider id (delete p t) d l l' r' e)

Held-reserve_theirs :
    (io : Io) (now later : ℕ) (done_provider claim_provider id : String)
    (fulfilled : Option (Option Bool)) (t : List ProcessedEvent) (b₁ b : Bool)
    → (claim_provider == done_provider) ≡ false
    → now ≤ later
    → later ≤ now + stale_claim_age
    → recorded done_provider id t ≡ true
    → io 1 ≡ b₁
    → recorded claim_provider id t ≡ b
    → (reserve_theirs io now claim_provider id fulfilled t).1 ≡ taken
    → Held later done_provider claim_provider id
        (reserve_theirs io now claim_provider id fulfilled t).0
unfolding reserve_theirs has_processed_event
Held-reserve_theirs io now later done_provider claim_provider id f t false b d l l' r e₁ e =
    rw (reserve_theirs, e₁, has_processed_event) (λ h. absurd (cc))
Held-reserve_theirs io now later done_provider claim_provider id f t true false d l l' r e₁ e =
    rw (reserve_theirs, e₁, has_processed_event, e) (λ h. absurd (cc))
Held-reserve_theirs io now later done_provider claim_provider id none t true true d l l' r e₁ e =
    rw (reserve_theirs, e₁, has_processed_event, e)
      (Held-take_over io now later done_provider claim_provider id t _ _ _ _ d l l' r refl refl refl
        refl)
Held-reserve_theirs io now later done_provider claim_provider id (some none) t true true d l l' r e₁
      e =
    rw (reserve_theirs, e₁, has_processed_event, e) (λ h. absurd (cc))
Held-reserve_theirs io now later done_provider claim_provider id (some (some true)) t true true d l
      l' r e₁ e =
    rw (reserve_theirs, e₁, has_processed_event, e) (λ h. absurd (cc))
Held-reserve_theirs io now later done_provider claim_provider id (some (some false)) t true true d l
      l' r e₁ e =
    rw (reserve_theirs, e₁, has_processed_event, e)
      (Held-take_over io now later done_provider claim_provider id t _ _ _ _ d l l' r refl refl refl
        refl)

pub reserved_first :
    (now : ℕ) (provider id : String) (t : List ProcessedEvent)
    → recorded provider id (record { provider = provider; event_id = id; created_at = now } ∷ t)
      ≡ true
unfolding select
reserved_first now provider id t = rw (recorded, eq_refl provider, eq_refl id) refl

pub Held-reserve :
    (io : Io) (now later : ℕ) (done_provider claim_provider id : String)
    (fulfilled : Option (Option Bool)) (t : List ProcessedEvent) (b₀ b : Bool)
    → (claim_provider == done_provider) ≡ false
    → now ≤ later
    → later ≤ now + stale_claim_age
    → io 0 ≡ b₀
    → recorded done_provider id t ≡ b
    → (reserve io now done_provider claim_provider id fulfilled t).1 ≡ taken
    → Held later done_provider claim_provider id
        (reserve io now done_provider claim_provider id fulfilled t).0
unfolding reserve claim_processed_event
Held-reserve io now later done_provider claim_provider id fulfilled t false b d l l' e₀ e =
    rw (reserve, e₀, claim_processed_event) (λ h. absurd (cc))
Held-reserve io now later done_provider claim_provider id fulfilled t true true d l l' e₀ e =
    rw (reserve, e₀, claim_processed_event, e)
      (Held-reserve_theirs io now later done_provider claim_provider id fulfilled t _ _ d l l' e
        refl refl)
Held-reserve io now later done_provider claim_provider id fulfilled t true false d l l' e₀ e =
    rw (reserve, e₀, claim_processed_event, e)
      (Held-reserve_ours io now later done_provider claim_provider id
        (record { provider = done_provider; event_id = id; created_at = now } ∷ t) _ _ d l l'
        (reserved_first now done_provider id t) refl refl)

-- For ten minutes an event has one owner: after a caller was told that it handles the event, at `now`,
-- no other one is told so until `now` plus the age of a stale claim, whichever of its statements fail
-- and whatever it learns of the session, and the table is as the owner left it. The two rows have
-- different provider names.
pub reserve_exclusive :
    (io io' : Io) (now later : ℕ) (done_provider claim_provider id : String)
    (fulfilled fulfilled' : Option (Option Bool)) (t : List ProcessedEvent)
    → (claim_provider == done_provider) ≡ false
    → now ≤ later
    → later ≤ now + stale_claim_age
    → (reserve io now done_provider claim_provider id fulfilled t).1 ≡ taken
    → LeftAlone (reserve io now done_provider claim_provider id fulfilled t).0 (
        reserve io' later done_provider claim_provider id fulfilled'
          (reserve io now done_provider claim_provider id fulfilled t).0)
reserve_exclusive io io' now later done_provider claim_provider id fulfilled fulfilled' t d l l' h =
    LeftAlone-reserve io' later done_provider claim_provider id fulfilled' _ _
      (Held-reserve io now later done_provider claim_provider id fulfilled t _ _ d l l' refl refl h)
      refl
