-- ===== src/Webhooks/Dispatch.antt =====
-- The new deliveries of internal/service/webhook.go: `DispatchWithLog`, `Redispatch` and `DeliverTest`,
-- up to the goroutine that sends them.
use saas_admin.Prelude.{
  ℕ, String, ◌⊎◌, inl, inr, Bool, false, not, ◌&&◌, ◌||◌, Option, none, some, List, [], ◌∷◌, ◌++◌,
  ◌==◌, if◌then◌else◌,
}
use saas_admin.Prelude.Table.{select}
use saas_admin.Webhooks.{
  Webhook, WebhookDelivery, WebhookService, new_delivery, Answer, attempt, deliver, has_id,
  RetryCall, active_webhook,
}

pub data RedispatchError : Type 0 where
  delivery_not_found not_resendable create_failed : RedispatchError

-- `Redispatch`: the statement that finds the delivery, the lookup of its webhook, the insert; `id` is
-- the fresh row's. The row is handed to a goroutine with its webhook.
unfoldable pub redispatch :
    WebhookService
    → RetryCall
    → String
    → String
    → List Webhook
    → List WebhookDelivery
    → List WebhookDelivery × (RedispatchError ⊎ (Webhook × WebhookDelivery))
redispatch svc call id delivery_id hooks t =
    elim (if call.lists then select (has_id delivery_id) t else none) [
      | none ↦ (t, inl delivery_not_found)
      | some orig ↦ elim (active_webhook call orig.webhook_id hooks) [
        | none ↦ (t, inl not_resendable)
        | some w ↦
            let fresh = new_delivery svc call.now id w orig.event orig.payload in
            if call.writes id then (t ++ (fresh ∷ []), inr (w, fresh)) else (t, inl create_failed)
      ]
    ]

-- product_id = ? AND active = true AND ? = ANY(events)
abbrev pub has_event : String → List String → Bool
has_event event [] = false
has_event event (e ∷ es) = (e == event) || has_event event es

abbrev pub subscribed : String → String → Webhook → Bool
subscribed product_id event w =
    (w.product_id == product_id) && (w.active && has_event event w.events)

-- One round of `DispatchWithLog`: `id` is the new row's. A row that is not written is not sent.
unfoldable pub dispatch_one :
    WebhookService
    → RetryCall
    → String
    → String
    → String
    → Webhook
    → List WebhookDelivery
    → List WebhookDelivery × List (Webhook × WebhookDelivery)
dispatch_one svc call id event payload w t =
    let d = new_delivery svc call.now id w event payload in
    if call.writes id then (t ++ (d ∷ []), (w, d) ∷ []) else (t, [])

-- The loop over the webhooks that the query finds; `ids` gives the row of a webhook its fresh id.
unfoldable pub dispatch_each :
    WebhookService
    → RetryCall
    → (String → String)
    → String
    → String
    → String
    → List Webhook
    → List WebhookDelivery
    → List WebhookDelivery × List (Webhook × WebhookDelivery)
unfolding dispatch_one
dispatch_each svc call ids product_id event payload [] t = (t, [])
dispatch_each svc call ids product_id event payload (w ∷ ws) t =
    let p =
      if subscribed product_id event w
      then dispatch_one svc call (ids w.id) event payload w t
      else (t, []) in
    let rest = dispatch_each svc call ids product_id event payload ws p.0 in (rest.0, p.1 ++ rest.1)

-- `none` is the error of the query.
unfoldable pub dispatch_with_log :
    WebhookService
    → RetryCall
    → (String → String)
    → String
    → String
    → String
    → List Webhook
    → List WebhookDelivery
    → Option (List WebhookDelivery × List (Webhook × WebhookDelivery))
unfolding dispatch_each
dispatch_with_log svc call ids product_id event payload hooks t =
    if call.lists then some (dispatch_each svc call ids product_id event payload hooks t) else none

pub data TestError : Type 0 where
  webhook_inactive test_not_created : TestError

-- `DeliverTest`: the payload and what the receiver answers are given, and so is the time of the
-- answer; `stores` is the update of the row.
unfoldable pub deliver_test :
    WebhookService
    → RetryCall
    → String
    → String
    → ℕ
    → Answer
    → Bool
    → Webhook
    → List WebhookDelivery
    → List WebhookDelivery × (TestError ⊎ WebhookDelivery)
unfolding deliver
deliver_test svc call id payload later answer stores w t =
    let d = new_delivery svc call.now id w "webhook.test" payload in
    if not w.active
    then (t, inl webhook_inactive)
    else if call.writes id
    then (deliver svc later stores answer d (t ++ (d ∷ [])), inr (attempt svc later answer d))
    else (t, inl test_not_created)
