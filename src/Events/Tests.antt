-- ===== src/Events/Tests.antt =====
-- Tests of event claims, and their theorems at concrete data.
use saas_admin.Prelude.{ℕ, String, ◌≡◌, refl, none, List, [], ◌∷◌, arith}
use saas_admin.Prelude.Table.{select, delete}
use saas_admin.Database.{healthy}
use saas_admin.Events.{
  ProcessedEvent, reserve, reserve_ours, claim_event, claim_processed_event, delete_processed_event,
  midway, reserve_theirs, has_processed_event, take_over, release_stale_processed_event,
}
use saas_admin.Events.Exclusive.{LeftAlone, reserve_exclusive}

abbrev row : String → ℕ → ProcessedEvent
row provider now = record { provider = provider; event_id = "evt"; created_at = now }

-- An event taken at 100.
abbrev in_flight : List ProcessedEvent
in_flight = row "stripe_claim" 100 ∷ row "stripe" 100 ∷ []

second_caller_waits : (claim_event healthy 200 "evt" in_flight).1 ≡ midway
unfolding reserve claim_processed_event reserve_theirs has_processed_event take_over
    release_stale_processed_event select delete
second_caller_waits = refl

reserve_exclusive_example :
    LeftAlone (reserve healthy 100 "stripe" "stripe_claim" "evt" none []).0 (
      reserve healthy 200 "stripe" "stripe_claim" "evt" none
        (reserve healthy 100 "stripe" "stripe_claim" "evt" none []).0)
unfolding reserve claim_processed_event reserve_ours delete_processed_event select delete
reserve_exclusive_example =
    reserve_exclusive healthy healthy 100 200 "stripe" "stripe_claim" "evt" none none [] refl
      (omega arith) (omega arith) refl
