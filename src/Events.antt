-- ===== src/Events.antt =====
-- The claims of webhook events: `reserve` and `release` of internal/payment/stripe.go over the
-- processed events of internal/store/store.go.
pub mod Exclusive
pub mod Lifecycle
pub mod Others
mod Tests
use saas_admin.Prelude.{
  ℕ, zero, suc, ◌+◌, ◌-◌, ◌*◌, ◌/◌, ◌%◌, ◌^◌, ◌≤◌, ◌<◌, min, max, String, ◌≡◌, refl, sym, ap, ◌∙◌,
  ◌≢◌, ◌↔◌, ◌⊎◌, inl, inr, Bool, true, false, not, ◌&&◌, ◌||◌, Option, none, some, List, [], ◌∷◌,
  ◌++◌, map, arith, ◌==◌, eq_iff, eq_refl, ltb, leb, nat_eq, if◌then◌else◌, ltb→lt, lt→ltb, leb→le,
  le→leb, Bool-cases, Option-cases, length, All,
}
use saas_admin.Prelude.Table.{select, delete}
use saas_admin.Database.{Io}
use saas_admin.Model.{second}

pub record ProcessedEvent : Type 0 where
  pub provider : String
  pub event_id : String
  pub created_at : ℕ

-- The columns of the unique constraint.
abbrev pub is_event : String → String → ProcessedEvent → Bool
is_event provider id r = r.provider == provider && r.event_id == id

abbrev pub recorded : String → String → List ProcessedEvent → Bool
recorded provider id t = elim (select (is_event provider id) t) [ none ↦ false | some r ↦ true ]

-- `none` is an error of the database, here and below.
unfoldable pub has_processed_event : Bool → String → String → List ProcessedEvent → Option Bool
has_processed_event runs provider id t = if runs then some (recorded provider id t) else none

unfoldable pub claim_processed_event :
    Bool → ℕ → String → String → List ProcessedEvent → Option (Bool × List ProcessedEvent)
claim_processed_event runs now provider id t =
    if runs
    then if recorded provider id t
      then some (false, t)
      else some (true, record { provider = provider; event_id = id; created_at = now } ∷ t)
    else none

unfoldable pub delete_processed_event :
    Bool → String → String → List ProcessedEvent → Option (List ProcessedEvent)
delete_processed_event runs provider id t =
    if runs then some (delete (is_event provider id) t) else none

-- Whether the error of a delete is ignored.
abbrev pub or_else : List ProcessedEvent → Option (List ProcessedEvent) → List ProcessedEvent
or_else t none = t
or_else t (some t') = t'

abbrev pub stale : ℕ → ℕ → String → String → ProcessedEvent → Bool
stale max_age now provider id r = is_event provider id r && ltb (r.created_at + max_age) now

unfoldable pub release_stale_processed_event :
    Bool → ℕ → ℕ → String → String → List ProcessedEvent → Option (Bool × List ProcessedEvent)
release_stale_processed_event runs max_age now provider id t =
    if runs
    then some (
      elim (select (stale max_age now provider id) t) [ none ↦ false | some r ↦ true ],
      delete (stale max_age now provider id) t,
    )
    else none

-- `CompleteProcessedEvent`
unfoldable pub complete_processed_event :
    Bool → String → String → List ProcessedEvent → Option (List ProcessedEvent)
unfolding delete_processed_event
complete_processed_event runs claim_provider id t = delete_processed_event runs claim_provider id t

abbrev pub stale_claim_age : ℕ
stale_claim_age = 600 * second

-- (true, false, nil), (false, true, nil), (false, false, nil), and an error.
pub data Reserved : Type 0 where
  taken finished midway reserve_failed : Reserved

-- The reservation is ours; statement 1 deletes an orphaned marker, 2 writes the marker, 3 gives the
-- reservation back.
unfoldable pub reserve_ours :
    Io → ℕ → String → String → String → List ProcessedEvent → List ProcessedEvent × Reserved
unfolding delete_processed_event claim_processed_event
reserve_ours io now done_provider claim_provider id t =
    let t' = or_else t (delete_processed_event (io 1) claim_provider id t) in
    elim (claim_processed_event (io 2) now claim_provider id t') [
      | none ↦ (or_else t' (delete_processed_event (io 3) done_provider id t'), reserve_failed)
      | some p ↦
          if p.0
          then (p.1, taken)
          else (or_else p.1 (delete_processed_event (io 3) done_provider id p.1), midway)
    ]

-- 3 drops a stale marker, 4 takes it over.
unfoldable pub take_over :
    Io → ℕ → String → String → List ProcessedEvent → List ProcessedEvent × Reserved
unfolding release_stale_processed_event claim_processed_event
take_over io now claim_provider id t =
    elim (release_stale_processed_event (io 3) stale_claim_age now claim_provider id t) [
      | none ↦ (t, reserve_failed)
      | some p ↦
          if p.0
          then elim (claim_processed_event (io 4) now claim_provider id p.1) [
            | none ↦ (p.1, reserve_failed)
            | some q ↦ (q.1, if q.0 then taken else midway)
          ]
          else (p.1, midway)
    ]

-- Another caller has the reservation: 1 looks for its marker. `fulfilled` is `none` for nil, and then
-- what it answers, where `none` is an error.
unfoldable pub reserve_theirs :
    Io
    → ℕ
    → String
    → String
    → Option (Option Bool)
    → List ProcessedEvent
    → List ProcessedEvent × Reserved
unfolding has_processed_event take_over
reserve_theirs io now claim_provider id fulfilled t =
    elim (has_processed_event (io 1) claim_provider id t) [
      | none ↦ (t, reserve_failed)
      | some inflight ↦
          if inflight
          then elim fulfilled [
            | none ↦ take_over io now claim_provider id t
            | some answer ↦ elim answer [
              | none ↦ (t, reserve_failed)
              | some done ↦ if done then (t, finished) else take_over io now claim_provider id t
            ]
          ]
          else (t, finished)
    ]

-- 0 writes the reservation.
unfoldable pub reserve :
    Io
    → ℕ
    → String
    → String
    → String
    → Option (Option Bool)
    → List ProcessedEvent
    → List ProcessedEvent × Reserved
unfolding claim_processed_event reserve_ours reserve_theirs
reserve io now done_provider claim_provider id fulfilled t =
    elim (claim_processed_event (io 0) now done_provider id t) [
      | none ↦ (t, reserve_failed)
      | some p ↦
          if p.0
          then reserve_ours io now done_provider claim_provider id p.1
          else reserve_theirs io now claim_provider id fulfilled t
    ]

-- 0 deletes the reservation, 1 the marker.
unfoldable pub release :
    Io → String → String → String → List ProcessedEvent → List ProcessedEvent × Bool
unfolding delete_processed_event
release io done_provider claim_provider id t =
    elim (delete_processed_event (io 0) done_provider id t) [
      | none ↦ (t, false)
      | some t' ↦ elim (delete_processed_event (io 1) claim_provider id t') [
        | none ↦ (t', false)
        | some t'' ↦ (t'', true)
      ]
    ]

abbrev pub claim_event : Io → ℕ → String → List ProcessedEvent → List ProcessedEvent × Reserved
claim_event io now id t = reserve io now "stripe" "stripe_claim" id none t
