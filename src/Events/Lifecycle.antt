-- ===== src/Events/Lifecycle.antt =====
-- How the handling of a webhook event ends (internal/payment/stripe.go): completed, or released.
use saas_admin.Prelude.{
  ℕ, String, ◌≡◌, refl, sym, ◌∙◌, Bool, true, false, Option, some, List, ◌∷◌, arith, ◌==◌,
}
use saas_admin.Prelude.Table.{delete, count-delete_self, select-none_of_count}
use saas_admin.Database.{Io, healthy}
use saas_admin.Events.{
  ProcessedEvent, is_event, recorded, has_processed_event, claim_processed_event,
  delete_processed_event, complete_processed_event, taken, reserve_ours, reserve_theirs, reserve,
  release,
}
use saas_admin.Events.Exclusive.{LeftAlone, Held-reserve, recorded-delete, other_provider}

pub gone :
    (provider id : String) (t : List ProcessedEvent)
    → recorded provider id (delete (is_event provider id) t) ≡ false
gone provider id t =
    rw
      (
        recorded,
        select-none_of_count (is_event provider id) (delete (is_event provider id) t)
            (count-delete_self (is_event provider id) t),
      )
      refl

pub LeftAlone-done :
    (io : Io) (now : ℕ) (done_provider claim_provider id : String)
    (fulfilled : Option (Option Bool)) (t : List ProcessedEvent) (b₀ b₁ : Bool)
    → recorded done_provider id t ≡ true
    → recorded claim_provider id t ≡ false
    → io 0 ≡ b₀
    → io 1 ≡ b₁
    → LeftAlone t (reserve io now done_provider claim_provider id fulfilled t)
unfolding reserve claim_processed_event reserve_theirs has_processed_event
LeftAlone-done io now done_provider claim_provider id fulfilled t false b₁ r n e₀ e₁ =
    rw (reserve, e₀, claim_processed_event) (refl, λ h. absurd (cc))
LeftAlone-done io now done_provider claim_provider id fulfilled t true false r n e₀ e₁ =
    rw (reserve, e₀, claim_processed_event, r, reserve_theirs, e₁, has_processed_event)
      (refl, λ h. absurd (cc))
LeftAlone-done io now done_provider claim_provider id fulfilled t true true r n e₀ e₁ =
    rw (reserve, e₀, claim_processed_event, r, reserve_theirs, e₁, has_processed_event, n)
      (refl, λ h. absurd (cc))

-- A completed event is handled for good: when its owner has removed the marker, no caller is told to
-- handle it again, at any time and whichever statements fail, and no caller changes the table.
pub complete_final :
    (io io' : Io) (now later : ℕ) (done_provider claim_provider id : String)
    (fulfilled fulfilled' : Option (Option Bool)) (t : List ProcessedEvent)
    {t' : List ProcessedEvent}
    → (claim_provider == done_provider) ≡ false
    → (reserve io now done_provider claim_provider id fulfilled t).1 ≡ taken
    → complete_processed_event true claim_provider id
        (reserve io now done_provider claim_provider id fulfilled t).0
      ≡ some t'
    → LeftAlone t' (reserve io' later done_provider claim_provider id fulfilled' t')
unfolding complete_processed_event delete_processed_event
complete_final io io' now later done_provider claim_provider id fulfilled fulfilled' t {t' = t'} d h
      e =
    let w = (reserve io now done_provider claim_provider id fulfilled t).0 in
    let held =
      Held-reserve io now now done_provider claim_provider id fulfilled t _ _ d (omega arith)
        (omega arith) refl refl h in
    let p : delete (is_event claim_provider id) w ≡ t' = ground (arith, e) in
    let r : recorded done_provider id t' ≡ true = rw (sym p) (
      recorded-delete done_provider id (is_event claim_provider id) w
        (λ x k. other_provider done_provider claim_provider id x d k)
      ∙ held.0) in
    let n : recorded claim_provider id t' ≡ false = rw (sym p) (gone claim_provider id w) in
    LeftAlone-done io' later done_provider claim_provider id fulfilled' t' _ _ r n refl refl

released_inv :
    (io : Io) (done_provider claim_provider id : String) (t : List ProcessedEvent)
    {t' : List ProcessedEvent}
    → release io done_provider claim_provider id t ≡ (t', true)
    → t' ≡ delete (is_event claim_provider id) (delete (is_event done_provider id) t)
unfolding release delete_processed_event
released_inv io done_provider claim_provider id t e = ground (arith, e)

pub taken_afresh :
    (now : ℕ) (done_provider claim_provider id : String) (fulfilled : Option (Option Bool))
    (t : List ProcessedEvent)
    → recorded done_provider id t ≡ false
    → (reserve healthy now done_provider claim_provider id fulfilled t).1 ≡ taken
unfolding reserve claim_processed_event reserve_ours delete_processed_event
taken_afresh now done_provider claim_provider id fulfilled t n =
    let t' : List ProcessedEvent =
      record { provider = done_provider; event_id = id; created_at = now } ∷ t in
    rw
      (
        reserve,
        claim_processed_event,
        n,
        reserve_ours,
        delete_processed_event,
        gone claim_provider id t',
      )
      refl

-- A released event can be handled again: after both rows were deleted the next caller whose statements
-- run is told to handle it.
pub release_reopens :
    (io : Io) (now : ℕ) (done_provider claim_provider id : String)
    (fulfilled : Option (Option Bool)) (t : List ProcessedEvent) {t' : List ProcessedEvent}
    → (claim_provider == done_provider) ≡ false
    → release io done_provider claim_provider id t ≡ (t', true)
    → (reserve healthy now done_provider claim_provider id fulfilled t').1 ≡ taken
release_reopens io now done_provider claim_provider id fulfilled t {t' = t'} d e =
    let p = released_inv io done_provider claim_provider id t e in
    let x = delete (is_event done_provider id) t in
    let n : recorded done_provider id t' ≡ false = rw p (
      recorded-delete done_provider id (is_event claim_provider id) x
        (λ y k. other_provider done_provider claim_provider id y d k)
      ∙ gone done_provider id t) in
    taken_afresh now done_provider claim_provider id fulfilled t' n
