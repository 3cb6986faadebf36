-- ===== src/Webhooks/Tests.antt =====
-- The theorems of webhook deliveries at concrete data.
use saas_admin.Prelude.{◌≡◌, refl, true, false, none, some, [], ◌∷◌, arith}
use saas_admin.Prelude.Table.{select}
use saas_admin.Webhooks.Retries.{process_retries}
use saas_admin.Webhooks.{
  Webhook, WebhookDelivery, WebhookService, RetryCall, new_delivery, retry_backoff,
  list_pending_deliveries,
}
use saas_admin.Webhooks.Claims.{any_id, process_retries_claim}

abbrev service : WebhookService
service = record { http_timeout = 10; max_retries = 3 }

abbrev hook : Webhook
hook = record { id = "wh"; product_id = "prod"; events = "license.created" ∷ []; active = true }

abbrev delivery : WebhookDelivery
delivery = new_delivery service 0 "d1" hook "license.created" "{}"

abbrev stuck : WebhookDelivery
stuck = record delivery { next_retry = none }

abbrev call : RetryCall
call = record { now = 1000; lists = true; reads = λ id. true; writes = λ id. true }

first_backoff : retry_backoff 1 ≡ 60000000000
first_backoff = refl

handed_over :
    (process_retries service call (hook ∷ []) (stuck ∷ [])).1
    ≡ (hook, record stuck { next_retry = some 30000001020 }) ∷ []
unfolding process_retries select
handed_over = refl

process_retries_claim_example :
    any_id "d1"
      (list_pending_deliveries 2000 50 (process_retries service call (hook ∷ []) (stuck ∷ [])).0)
    ≡ false
unfolding list_pending_deliveries
process_retries_claim_example =
    process_retries_claim service call (hook ∷ []) 2000 "d1" (stuck ∷ []) refl (λ id. refl)
      (omega arith) refl
