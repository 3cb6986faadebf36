-- ===== src/Webhooks.antt =====
-- Webhook deliveries: internal/service/webhook.go over internal/store/webhook.go. The request itself,
-- its guards and the metrics are left out; an attempt starts from what the client answers.
pub mod Retries
pub mod Claims
pub mod Dispatch
mod Tests
use saas_admin.Prelude.{
  ℕ, zero, suc, ◌+◌, ◌-◌, ◌*◌, ◌/◌, ◌%◌, ◌^◌, ◌≤◌, ◌<◌, min, max, String, ◌≡◌, refl, sym, ap, ◌∙◌,
  ◌≢◌, ◌↔◌, ◌⊎◌, inl, inr, Bool, true, false, not, ◌&&◌, ◌||◌, Option, none, some, List, [], ◌∷◌,
  ◌++◌, map, arith, ◌==◌, eq_iff, eq_refl, ltb, leb, nat_eq, if◌then◌else◌, ltb→lt, lt→ltb, leb→le,
  le→leb, Bool-cases, Option-cases, length, All,
}
use saas_admin.Prelude.Table.{select, update}
use saas_admin.Model.{second}

pub record Webhook : Type 0 where
  pub id : String
  pub product_id : String
  pub events : List String
  pub active : Bool

pub data DeliveryStatus : Type 0 where
  pending delivered failed : DeliveryStatus

pub record WebhookDelivery : Type 0 where
  pub id : String
  pub webhook_id : String
  pub event : String
  pub payload : String
  pub response_code : ℕ
  pub response_body : String
  pub attempts : ℕ
  pub next_retry : Option ℕ
  pub status : DeliveryStatus
  pub delivered_at : Option ℕ

pub record WebhookService : Type 0 where
  pub http_timeout : ℕ
  pub max_retries : ℕ

abbrev pub is_pending : DeliveryStatus → Bool
is_pending pending = true
is_pending delivered = false
is_pending failed = false

abbrev pub inflight_hold_off : WebhookService → ℕ → ℕ
inflight_hold_off svc now = now + (2 * svc.http_timeout + 30 * second)

-- The row as it is written before its first attempt, by a dispatch, a resend or a test.
abbrev pub new_delivery : WebhookService → ℕ → String → Webhook → String → String → WebhookDelivery
new_delivery svc now id wh event payload = record {
  id = id;
  webhook_id = wh.id;
  event = event;
  payload = payload;
  response_code = 0;
  response_body = "";
  attempts = 0;
  next_retry = some (inflight_hold_off svc now);
  status = pending;
  delivered_at = none;
}

-- What becomes of a request: an error, of building or of sending it, or an answer with its code and
-- the first 4096 bytes of its body.
pub data Answer : Type 0 where
  send_error : String → Answer
  answered : ℕ → String → Answer

-- `1<<uint(d.Attempts) * 30s` on 64 bits.
abbrev pub retry_backoff : ℕ → ℕ
retry_backoff attempts = ((2 ^ attempts % 2 ^ 64) * (30 * second)) % 2 ^ 64

-- `now.Add` of a signed 64-bit duration.
abbrev pub add_duration : ℕ → ℕ → ℕ
add_duration now d = if ltb d (2 ^ 63) then now + d else now - (2 ^ 64 - d)

unfoldable pub schedule_retry : WebhookService → ℕ → WebhookDelivery → WebhookDelivery
schedule_retry svc now d =
    if leb svc.max_retries d.attempts then record d { status = failed } else record d {
      next_retry = some (add_duration now (retry_backoff d.attempts));
      status = pending;
    }

-- The row after `deliver`, `failDelivery` included.
unfoldable pub attempt : WebhookService → ℕ → Answer → WebhookDelivery → WebhookDelivery
unfolding schedule_retry
attempt svc now (send_error e) d =
    schedule_retry svc now
      (record d { attempts = d.attempts + 1; response_code = 0; response_body = e })
attempt svc now (answered code body) d =
    let d' = record d { response_code = code; response_body = body; attempts = d.attempts + 1 } in
    if leb 200 code && ltb code 300
    then record d' { status = delivered; delivered_at = some now }
    else schedule_retry svc now d'

abbrev pub has_id : String → WebhookDelivery → Bool
has_id id r = r.id == id

-- UPDATE … WHERE id, with every column of the row; `false` is an error.
unfoldable pub update_webhook_delivery :
    Bool → WebhookDelivery → List WebhookDelivery → List WebhookDelivery
update_webhook_delivery runs d t = if runs then update (has_id d.id) (λ r. d) t else t

-- The error of the statement is ignored.
unfoldable pub deliver :
    WebhookService
    → ℕ
    → Bool
    → Answer
    → WebhookDelivery
    → List WebhookDelivery
    → List WebhookDelivery
unfolding update_webhook_delivery
deliver svc now runs answer d t = update_webhook_delivery runs (attempt svc now answer d) t

-- status = 'pending' AND (next_retry IS NULL OR next_retry <= now)
abbrev pub is_due : ℕ → WebhookDelivery → Bool
is_due now d = is_pending d.status && elim d.next_retry [ none ↦ true | some next ↦ leb next now ]

-- The rows stand in the order of their creation.
unfoldable pub list_pending_deliveries : ℕ → ℕ → List WebhookDelivery → List WebhookDelivery
list_pending_deliveries now zero t = []
list_pending_deliveries now (suc n) [] = []
list_pending_deliveries now (suc n) (d ∷ t) =
    let here = list_pending_deliveries now n t in
    let later = list_pending_deliveries now (suc n) t in if is_due now d then d ∷ here else later

-- The clock and the statements of one run of `ProcessRetries`: the list, the lookup of a webhook and
-- the update of a delivery.
pub record RetryCall : Type 0 where
  pub now : ℕ
  pub lists : Bool
  pub reads : String → Bool
  pub writes : String → Bool

-- An error of the lookup is treated as a missing row.
abbrev pub active_webhook : RetryCall → String → List Webhook → Option Webhook
active_webhook call id hooks =
    elim (if call.reads id then select (λ (w : Webhook). w.id == id) hooks else none) [
      | none ↦ none
      | some w ↦ if w.active then some w else none
    ]
