-- ===== src/Payments/Webhook.antt =====
-- The endpoint for Stripe events, `Webhook` of internal/payment/stripe.go: its gates, the claim of the
-- event, the handler, and the release or completion of the claim.
use saas_admin.Prelude.{
  ℕ, String, Bool, true, false, not, ◌||◌, Option, none, some, ◌==◌, ltb, if◌then◌else◌,
}
use saas_admin.Database.{Io}
use saas_admin.Events.{
  taken, finished, midway, reserve_failed, reserve, claim_event, release, complete_processed_event,
}
use saas_admin.Payments.{BillingState, BillingCall}
use saas_admin.Payments.Subscriptions.{
  InvoiceEvent, SubscriptionEvent, on_invoice_paid, on_subscription_updated,
  on_subscription_deleted, on_payment_failed, on_subscription_paused, on_subscription_resumed,
  on_payment_action_required, on_trial_will_end, on_invoice_upcoming, on_customer_updated,
}
use saas_admin.Payments.Refunds.{ChargeEvent, ChargeCall, on_charge_refunded, on_dispute}
use saas_admin.Payments.Checkout.{CheckoutSession, CheckoutCall}
use saas_admin.Payments.Fulfil.{on_checkout_completed, on_async_payment_failed}

-- The event types with what the handlers read of them. `unhandled` is any other type, and a payload
-- that does not decode.
pub data StripeEvent : Type 0 where
  checkout_completed : CheckoutSession → StripeEvent
  async_payment_failed : String → StripeEvent
  invoice_paid : InvoiceEvent → StripeEvent
  subscription_updated : SubscriptionEvent → StripeEvent
  subscription_deleted : String → StripeEvent
  payment_failed : InvoiceEvent → StripeEvent
  charge_refunded : ChargeEvent → StripeEvent
  dispute_created : String → StripeEvent
  dispute_closed : String → StripeEvent
  payment_action_required : InvoiceEvent → StripeEvent
  subscription_paused : String → StripeEvent
  subscription_resumed : String → StripeEvent
  trial_will_end : String → StripeEvent
  invoice_upcoming : InvoiceEvent → StripeEvent
  customer_updated : String → String → StripeEvent
  unhandled : StripeEvent

-- What one delivery needs: the statements of the claim, of the release and of the completion, and what
-- its handler needs.
pub record Delivery : Type 0 where
  pub now : ℕ
  pub claiming : Io
  pub releasing : Io
  pub completes : Bool
  pub billing : BillingCall
  pub charge : ChargeCall
  pub checkout : CheckoutCall

-- The handler of an event, and whether it reports an error.
unfoldable pub handle : Delivery → StripeEvent → BillingState → BillingState × Bool
unfolding on_checkout_completed on_async_payment_failed on_invoice_paid on_subscription_updated
    on_subscription_deleted on_payment_failed on_charge_refunded on_payment_action_required
    on_subscription_paused on_subscription_resumed on_trial_will_end on_invoice_upcoming
    on_customer_updated
handle d (checkout_completed s) w = on_checkout_completed d.checkout s w
handle d (async_payment_failed id) w = (on_async_payment_failed d.checkout id w, false)
handle d (invoice_paid e) w = (on_invoice_paid d.billing e w, false)
handle d (subscription_updated e) w = (on_subscription_updated d.billing e w, false)
handle d (subscription_deleted id) w = (on_subscription_deleted d.billing id w, false)
handle d (payment_failed e) w = (on_payment_failed d.billing e w, false)
handle d (charge_refunded e) w = on_charge_refunded d.charge e w
handle d (dispute_created id) w = (on_dispute "created" id w, false)
handle d (dispute_closed id) w = (on_dispute "closed" id w, false)
handle d (payment_action_required e) w = (on_payment_action_required d.billing e w, false)
handle d (subscription_paused id) w = (on_subscription_paused d.billing id w, false)
handle d (subscription_resumed id) w = (on_subscription_resumed d.billing id w, false)
handle d (trial_will_end id) w = (on_trial_will_end d.billing id w, false)
handle d (invoice_upcoming e) w = (on_invoice_upcoming d.billing e w, false)
handle d (customer_updated id email) w = (on_customer_updated d.billing id email w, false)
handle d unhandled w = (w, false)

-- The replies: 400 with its text, 400 UNSUPPORTED_API_VERSION, 500 "retry", 200 "skipped",
-- 503 "in_progress", and 200.
pub data Reply : Type 0 where
  bad_request : String → Reply
  unsupported_api_version retry skipped in_progress received : Reply

-- The configuration of the handler. `api_version` is the SDK's, `train` is what follows the first dot
-- of a version.
pub record StripeHandler : Type 0 where
  pub livemode : Bool
  pub webhook_secret : String
  pub prev_webhook_secret : String
  pub prev_secret_until : ℕ
  pub api_version : String
  pub train : String → Option String

-- A request. `verifies` says whether its signature is that of a secret.
pub record Request : Type 0 where
  pub readable : Bool
  pub verifies : String → Bool
  pub event_id : String
  pub api_version : String
  pub livemode : Bool

abbrev pub previous_webhook_secret : StripeHandler → ℕ → Option String
previous_webhook_secret h now =
    if (h.prev_webhook_secret == "") || ltb h.prev_secret_until now
    then none
    else some h.prev_webhook_secret

abbrev pub same_release_train : StripeHandler → String → String → Bool
same_release_train h have want = elim (h.train have) [
  | none ↦ false
  | some t ↦ elim (h.train want) [ none ↦ false | some t' ↦ t == t' ]
]

abbrev pub supported_api_version : StripeHandler → String → Bool
supported_api_version h v = if v == "" then false else elim (h.train v) [
  | none ↦ true
  | some t ↦ (t == "acacia") || same_release_train h v h.api_version
]

abbrev pub verified : StripeHandler → ℕ → Request → Bool
verified h now req =
    req.verifies h.webhook_secret
    || elim (previous_webhook_secret h now) [ none ↦ false | some prev ↦ req.verifies prev ]

abbrev pub same_mode : Bool → Bool → Bool
same_mode true b = b
same_mode false b = not b

-- What refuses a request before its event is claimed.
unfoldable pub refused : StripeHandler → ℕ → Request → Option Reply
refused h now req =
    if not req.readable
    then some (bad_request "read failed")
    else if h.webhook_secret == ""
    then some (bad_request "webhook not configured")
    else if not (verified h now req)
    then some (bad_request "invalid signature")
    else if not (supported_api_version h req.api_version)
    then some unsupported_api_version
    else if not (same_mode req.livemode h.livemode)
    then some (bad_request "livemode mismatch")
    else none

-- The handler of a claimed event, and what becomes of the claim.
unfoldable pub settle : Delivery → String → StripeEvent → BillingState → BillingState × Reply
unfolding handle release complete_processed_event
settle d id e w =
    let p = handle d e w in
    if p.1
    then (
      record p.0 { processed = (release d.releasing "stripe" "stripe_claim" id p.0.processed).0 },
      retry,
    )
    else elim (complete_processed_event d.completes "stripe_claim" id p.0.processed) [
      | none ↦ (p.0, retry)
      | some t ↦ (record p.0 { processed = t }, received)
    ]

unfoldable pub webhook :
    StripeHandler → Delivery → Request → StripeEvent → BillingState → BillingState × Reply
unfolding refused reserve settle
webhook h d req e w = elim (refused h d.now req) [
  | some reply ↦ (w, reply)
  | none ↦
      let p = claim_event d.claiming d.now req.event_id w.processed in
      let w' = record w { processed = p.0 } in
      elim p.1 [
        | reserve_failed ↦ (w', retry)
        | finished ↦ (w', skipped)
        | midway ↦ (w', in_progress)
        | taken ↦ settle d req.event_id e w'
      ]
]
