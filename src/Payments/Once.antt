-- ===== src/Payments/Once.antt =====
-- A Stripe event takes effect once (internal/payment/stripe.go, `Webhook`).
use saas_admin.Prelude.{
  ℕ, String, ◌≡◌, refl, inl, inr, Bool, true, false, none, some, arith, Bool-cases, Option-cases,
}
use saas_admin.Events.{
  recorded, Reserved, taken, finished, midway, reserve_failed, claim_event,
  complete_processed_event, delete_processed_event,
}
use saas_admin.Events.Exclusive.{LeftAlone, Held-reserve}
use saas_admin.Events.Lifecycle.{gone, LeftAlone-done}
use saas_admin.Events.Others.{Stays-delete}
use saas_admin.Payments.{BillingState}
use saas_admin.Payments.Claimed.{Claimed-handle}
use saas_admin.Payments.Webhook.{
  StripeEvent, Delivery, handle, Reply, bad_request, unsupported_api_version, retry, skipped,
  in_progress, received, StripeHandler, Request, refused, settle, webhook,
}

-- The event is handled and its claim completed.
abbrev pub Done : String → BillingState → Type 0
Done id w =
    (recorded "stripe" id w.processed ≡ true) × (recorded "stripe_claim" id w.processed ≡ false)

-- A reply that says that the event took effect now.
abbrev pub took_effect : Reply → Bool
took_effect received = true
took_effect _ = false

Done-settle :
    (d : Delivery) (id : String) (e : StripeEvent) (w : BillingState)
    → recorded "stripe" id w.processed ≡ true
    → took_effect (settle d id e w).1 ≡ true
    → Done id (settle d id e w).0
unfolding settle complete_processed_event delete_processed_event
Done-settle d id e w s = elim (Bool-cases (handle d e w).1) [
  | inl f ↦ rw (settle, f) (λ h. absurd (cc))
  | inr f ↦ elim (Bool-cases d.completes) [
    | inr g ↦ rw (settle, f, complete_processed_event, delete_processed_event, g) (λ h. absurd (cc))
    | inl g ↦
        let t = (handle d e w).0.processed in
        let x = Stays-delete "stripe" id "stripe_claim" id refl t (Claimed-handle id d e w s) in
        rw (settle, f, complete_processed_event, delete_processed_event, g)
          (λ h. (x, gone "stripe_claim" id t))
  ]
]

Done-claimed :
    (h : StripeHandler) (d : Delivery) (req : Request) (e : StripeEvent) (w : BillingState)
    (r : Reserved)
    → refused h d.now req ≡ none
    → (claim_event d.claiming d.now req.event_id w.processed).1 ≡ r
    → took_effect (webhook h d req e w).1 ≡ true
    → Done req.event_id (webhook h d req e w).0
unfolding webhook
Done-claimed h d req e w reserve_failed n q = rw (webhook, n, q) (λ x. absurd (cc))
Done-claimed h d req e w finished n q = rw (webhook, n, q) (λ x. absurd (cc))
Done-claimed h d req e w midway n q = rw (webhook, n, q) (λ x. absurd (cc))
Done-claimed h d req e w taken n q =
    let held =
      Held-reserve d.claiming d.now d.now "stripe" "stripe_claim" req.event_id none w.processed _ _
        refl (omega arith) (omega arith) refl refl q in
    let w' = record w { processed = (claim_event d.claiming d.now req.event_id w.processed).0 } in
    rw (webhook, n, q) (Done-settle d req.event_id e w' held.0)

refused_no_effect :
    (h : StripeHandler) (now : ℕ) (req : Request) (reply : Reply)
    → refused h now req ≡ some reply
    → took_effect reply ≡ false
unfolding refused
refused_no_effect h now req received e = ground (arith, e)
refused_no_effect h now req (bad_request text) e = refl
refused_no_effect h now req unsupported_api_version e = refl
refused_no_effect h now req retry e = refl
refused_no_effect h now req skipped e = refl
refused_no_effect h now req in_progress e = refl

Done-webhook :
    (h : StripeHandler) (d : Delivery) (req : Request) (e : StripeEvent) (w : BillingState)
    → took_effect (webhook h d req e w).1 ≡ true
    → Done req.event_id (webhook h d req e w).0
unfolding webhook
Done-webhook h d req e w = elim (Option-cases (refused h d.now req)) [
  | inl n ↦ Done-claimed h d req e w _ n refl
  | inr (reply, n) ↦
      let f = refused_no_effect h d.now req reply n in
      rw (webhook, n) (λ x. absurd (ground (arith, f, x)))
]

-- A delivery that changes nothing.
abbrev pub Idle : BillingState → BillingState × Reply → Type 0
Idle w out = (out.0 ≡ w) × (took_effect out.1 ≡ false)

Idle-claimed :
    (h : StripeHandler) (d : Delivery) (req : Request) (e : StripeEvent) (w : BillingState)
    (r : Reserved)
    → refused h d.now req ≡ none
    → (claim_event d.claiming d.now req.event_id w.processed).1 ≡ r
    → LeftAlone w.processed (claim_event d.claiming d.now req.event_id w.processed)
    → Idle w (webhook h d req e w)
unfolding webhook
Idle-claimed h d req e w taken n q l = absurd (l.1 q)
Idle-claimed h d req e w finished n q l = rw (webhook, n, q, l.0) (refl, refl)
Idle-claimed h d req e w midway n q l = rw (webhook, n, q, l.0) (refl, refl)
Idle-claimed h d req e w reserve_failed n q l = rw (webhook, n, q, l.0) (refl, refl)

Idle-Done :
    (h : StripeHandler) (d : Delivery) (req : Request) (e : StripeEvent) (w : BillingState)
    → Done req.event_id w
    → Idle w (webhook h d req e w)
unfolding webhook
Idle-Done h d req e w k = elim (Option-cases (refused h d.now req)) [
  | inr (reply, n) ↦ rw (webhook, n) (refl, refused_no_effect h d.now req reply n)
  | inl n ↦ Idle-claimed h d req e w _ n refl (
      LeftAlone-done d.claiming d.now "stripe" "stripe_claim" req.event_id none w.processed _ _ k.0
        k.1 refl refl)
]

-- A Stripe event takes effect once: after a delivery whose reply is 200 "received", every further
-- delivery of the same event id, whatever its content, its signature and the statements that fail,
-- changes nothing, and is not answered as if it took effect.
pub webhook_once :
    (h h' : StripeHandler) (d d' : Delivery) (req req' : Request) (e e' : StripeEvent)
    (w : BillingState)
    → req'.event_id ≡ req.event_id
    → took_effect (webhook h d req e w).1 ≡ true
    → Idle (webhook h d req e w).0 (webhook h' d' req' e' (webhook h d req e w).0)
webhook_once h h' d d' req req' e e' w i t =
    Idle-Done h' d' req' e' (webhook h d req e w).0 (rw i (Done-webhook h d req e w t))
