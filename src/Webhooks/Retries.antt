-- ===== src/Webhooks/Retries.antt =====
-- `ProcessRetries` of internal/service/webhook.go.
use saas_admin.Prelude.{none, some, List, [], ◌∷◌, ◌++◌, if◌then◌else◌}
use saas_admin.Webhooks.{
  Webhook, WebhookDelivery, failed, WebhookService, inflight_hold_off, update_webhook_delivery,
  list_pending_deliveries, RetryCall, active_webhook,
}

-- One round of the loop: the rows and what is handed to a goroutine.
unfoldable pub process_retry :
    WebhookService
    → RetryCall
    → List Webhook
    → WebhookDelivery
    → List WebhookDelivery
    → List WebhookDelivery × List (Webhook × WebhookDelivery)
unfolding update_webhook_delivery
process_retry svc call hooks d t = elim (active_webhook call d.webhook_id hooks) [
  | none ↦ (
    update_webhook_delivery (call.writes d.id) (record d { status = failed; next_retry = none }) t,
    [],
  )
  | some w ↦
      let d' = record d { next_retry = some (inflight_hold_off svc call.now) } in
      (
        update_webhook_delivery (call.writes d.id) d' t,
        if call.writes d.id then (w, d') ∷ [] else [],
      )
]

unfoldable pub process_all :
    WebhookService
    → RetryCall
    → List Webhook
    → List WebhookDelivery
    → List WebhookDelivery
    → List WebhookDelivery × List (Webhook × WebhookDelivery)
unfolding process_retry
process_all svc call hooks [] t = (t, [])
process_all svc call hooks (d ∷ ds) t =
    let p = process_retry svc call hooks d t in
    let rest = process_all svc call hooks ds p.0 in (rest.0, p.1 ++ rest.1)

unfoldable pub process_retries :
    WebhookService
    → RetryCall
    → List Webhook
    → List WebhookDelivery
    → List WebhookDelivery × List (Webhook × WebhookDelivery)
unfolding list_pending_deliveries process_all
process_retries svc call hooks t =
    if call.lists
    then process_all svc call hooks (list_pending_deliveries call.now 50 t) t
    else (t, [])
