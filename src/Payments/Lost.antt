-- ===== src/Payments/Lost.antt =====
-- What becomes of a Stripe event whose write fails (internal/payment/stripe.go).
use saas_admin.Prelude.{
  ℕ, ◌*◌, ◌≡◌, refl, ap, ◌∙◌, inl, inr, Bool, true, false, ◌&&◌, none, List, Bool-cases,
}
use saas_admin.Model.{License, second}
use saas_admin.Expiry.{is_past_due}
use saas_admin.Events.{taken, claim_event, complete_processed_event, delete_processed_event}
use saas_admin.Payments.{
  BillingState, BillingCall, Column, save, episode_of, update_license_and_subscription,
}
use saas_admin.Payments.Subscriptions.{
  on_invoice_paid, on_subscription_updated, on_subscription_deleted, on_payment_failed,
  on_subscription_paused, on_subscription_resumed, paid, paid_columns, moved, prolonged,
  moved_columns, is_active, canceled_now, canceled_columns, past_due_now, past_due_columns,
  suspended_now, reinstated, suspended_columns, write_and_tell, pay, follow, cancel, fail_payment,
  pause, resume,
}
use saas_admin.Payments.Cases.{with_license-cases, with_invoice-cases, notify-cases}
use saas_admin.Payments.Webhook.{
  StripeEvent, checkout_completed, async_payment_failed, invoice_paid, subscription_updated,
  subscription_deleted, payment_failed, charge_refunded, dispute_created, dispute_closed,
  payment_action_required, subscription_paused, subscription_resumed, trial_will_end,
  invoice_upcoming, customer_updated, unhandled, Delivery, handle, StripeHandler, Request, refused,
  settle, webhook,
}
use saas_admin.Payments.Once.{took_effect, webhook_once}

-- The events that change a license and whose handlers drop the error of the write.
abbrev pub drops_errors : StripeEvent → Bool
drops_errors (invoice_paid e) = true
drops_errors (subscription_updated e) = true
drops_errors (subscription_deleted id) = true
drops_errors (payment_failed e) = true
drops_errors (subscription_paused id) = true
drops_errors (subscription_resumed id) = true
drops_errors _ = false

-- The licenses are as they were.
abbrev Kept : List License → List License → Type 0
Kept ls ls' = ls' ≡ ls

-- With a failing write.
module _ (call : BillingCall) (q : call.io 1 ≡ false) (w : BillingState) where
  Kept-save : (lic : License) (cols : List Column) → Kept w.licenses (save call lic cols w).licenses
  unfolding update_license_and_subscription
  Kept-save lic cols = rw (save, update_license_and_subscription, q) refl

  Kept-tell :
      (lic : License) (cols : List Column) (episode : ℕ) (b : Bool)
      → Kept w.licenses (write_and_tell call lic cols episode b w).licenses
  Kept-tell lic cols episode true =
      notify-cases (Kept w.licenses) call lic episode (save call lic cols w) (Kept-save lic cols)
  Kept-tell lic cols episode false = Kept-save lic cols

  Kept-fail_payment : (lic : License) → Kept w.licenses (fail_payment call lic w).licenses
  Kept-fail_payment lic = elim (Bool-cases (is_active lic.status)) [
    | inl e ↦ rw e (Kept-save (past_due_now call.now lic) past_due_columns)
    | inr e ↦ rw e refl
  ]

Kept-handle :
    (d : Delivery) (e : StripeEvent) (w : BillingState)
    → d.billing.io 1 ≡ false
    → drops_errors e ≡ true
    → ((handle d e w).1 ≡ false) × Kept w.licenses (handle d e w).0.licenses
unfolding handle on_invoice_paid on_subscription_updated on_subscription_deleted on_payment_failed
    on_subscription_paused on_subscription_resumed
Kept-handle d (invoice_paid e) w q n = (
  refl,
  with_invoice-cases (Kept w.licenses) d.billing e (pay d.billing e) w refl (λ x s.
      Kept-tell d.billing q w (paid (e.period_end * second) x) paid_columns (episode_of x)
        (is_past_due x.status)),
)
Kept-handle d (subscription_updated e) w q n = (
  refl,
  with_license-cases (Kept w.licenses) d.billing e.id (follow d.billing e) w refl (λ x s.
      let x' = prolonged e (moved d.billing.now e.status x) in
      Kept-tell d.billing q w x' (moved_columns e) (episode_of x)
        (is_past_due x.status && is_active x'.status)),
)
Kept-handle d (subscription_deleted id) w q n = (
  refl,
  with_license-cases (Kept w.licenses) d.billing id (cancel d.billing) w refl
      (λ x s. Kept-save d.billing q w (canceled_now d.billing.now x) canceled_columns),
)
Kept-handle d (payment_failed e) w q n = (
  refl,
  with_invoice-cases (Kept w.licenses) d.billing e (fail_payment d.billing) w refl
      (λ x s. Kept-fail_payment d.billing q w x),
)
Kept-handle d (subscription_paused id) w q n = (
  refl,
  with_license-cases (Kept w.licenses) d.billing id (pause d.billing) w refl
      (λ x s. Kept-save d.billing q w (suspended_now d.billing.now x) suspended_columns),
)
Kept-handle d (subscription_resumed id) w q n = (
  refl,
  with_license-cases (Kept w.licenses) d.billing id (resume d.billing) w refl
      (λ x s. Kept-save d.billing q w (reinstated x) suspended_columns),
)
Kept-handle d (checkout_completed s) w q n = absurd (cc)
Kept-handle d (async_payment_failed id) w q n = absurd (cc)
Kept-handle d (charge_refunded e) w q n = absurd (cc)
Kept-handle d (dispute_created id) w q n = absurd (cc)
Kept-handle d (dispute_closed id) w q n = absurd (cc)
Kept-handle d (payment_action_required e) w q n = absurd (cc)
Kept-handle d (trial_will_end id) w q n = absurd (cc)
Kept-handle d (invoice_upcoming e) w q n = absurd (cc)
Kept-handle d (customer_updated id email) w q n = absurd (cc)
Kept-handle d unhandled w q n = absurd (cc)

-- The delivery of an event whose write fails.
lost_delivery :
    (h : StripeHandler) (d : Delivery) (req : Request) (e : StripeEvent) (w : BillingState)
    → drops_errors e ≡ true
    → refused h d.now req ≡ none
    → (claim_event d.claiming d.now req.event_id w.processed).1 ≡ taken
    → d.completes ≡ true
    → d.billing.io 1 ≡ false
    → (took_effect (webhook h d req e w).1 ≡ true) × ((webhook h d req e w).0.licenses ≡ w.licenses)
unfolding webhook settle complete_processed_event delete_processed_event
lost_delivery h d req e w n r t c q =
    let w' = record w { processed = (claim_event d.claiming d.now req.event_id w.processed).0 } in
    let k = Kept-handle d e w' q n in
    rw (webhook, r, t, settle, k.0, complete_processed_event, delete_processed_event, c) (refl, k.1)

-- A write that fails is lost: when the transaction on the license fails for an event of a subscription
-- or an invoice, the endpoint answers as if the event took effect, the licenses are as they were, and
-- another delivery of the same event id, whatever its content and the statements that fail, leaves the
-- licenses so too. It assumes that the request is accepted, that the event is claimed, and that the
-- completion runs.
pub failed_write_lost :
    (h h' : StripeHandler) (d d' : Delivery) (req req' : Request) (e e' : StripeEvent)
    (w : BillingState)
    → drops_errors e ≡ true
    → refused h d.now req ≡ none
    → (claim_event d.claiming d.now req.event_id w.processed).1 ≡ taken
    → d.completes ≡ true
    → d.billing.io 1 ≡ false
    → req'.event_id ≡ req.event_id
    → (took_effect (webhook h d req e w).1 ≡ true)
      × ((webhook h d req e w).0.licenses ≡ w.licenses)
      × ((webhook h' d' req' e' (webhook h d req e w).0).0.licenses ≡ w.licenses)
failed_write_lost h h' d d' req req' e e' w n r t c q i =
    let k = lost_delivery h d req e w n r t c q in
    let again = webhook_once h h' d d' req req' e e' w i k.0 in
    (k.0, k.1, ap (λ x. x.licenses) again.0 ∙ k.1)
