-- ===== src/Payments/Claimed.antt =====
-- No handler of internal/payment/stripe.go drops the claim of an event.
use saas_admin.Prelude.{
  ℕ, String, ◌≡◌, refl, inl, inr, Bool, true, false, not, ◌&&◌, Option, none, some, ◌==◌,
  if◌then◌else◌, Bool-cases, Option-cases,
}
use saas_admin.Model.{Plan, License}
use saas_admin.Events.{
  Reserved, taken, finished, midway, reserve_failed, claim_processed_event,
  complete_processed_event,
}
use saas_admin.Events.Others.{Stays, Stays-claim, Stays-or_else, Stays-reserve, Stays-release}
use saas_admin.Payments.{BillingState}
use saas_admin.Payments.Subscriptions.{
  on_invoice_paid, on_subscription_updated, on_subscription_deleted, on_payment_failed,
  on_subscription_paused, on_subscription_resumed, on_payment_action_required, on_trial_will_end,
  on_invoice_upcoming, on_customer_updated,
}
use saas_admin.Payments.Refunds.{on_charge_refunded}
use saas_admin.Payments.Checkout.{
  CheckoutSession, CheckoutCall, session_fulfilled, find_plan, find_email, new_license, Fulfilled,
  fulfilled, unfulfilled, fulfil_error, insert_license, delivered, has_license, session_paid,
}
use saas_admin.Payments.Fulfil.{
  subscription_free, create_license, claim_session, claim_and_create, when_claimed, fulfill_new,
  fulfill_checkout, remember, on_checkout_completed, on_async_payment_failed,
}
use saas_admin.Payments.Webhook.{
  StripeEvent, checkout_completed, async_payment_failed, invoice_paid, subscription_updated,
  subscription_deleted, payment_failed, charge_refunded, dispute_created, dispute_closed,
  payment_action_required, subscription_paused, subscription_resumed, trial_will_end,
  invoice_upcoming, customer_updated, unhandled, Delivery, handle,
}
use saas_admin.Payments.Processed.{
  Same-on_customer_updated, Same-on_subscription_resumed, Same-on_subscription_paused, Same-quiet,
  Same-on_payment_failed, Same-on_subscription_deleted, Same-on_subscription_updated,
  Same-on_invoice_paid, Same, Same-on_charge_refunded,
}

-- The claim of an event outlives the handling of a session.
module _ (id : String) where
  Claimed : BillingState → Type 0
  Claimed w = Stays "stripe" id w.processed

  Claimed-delivered :
      (call : CheckoutCall) (lic : License) (w : BillingState)
      → Claimed w
      → Claimed (delivered call lic w)
  unfolding delivered complete_processed_event Claimed
  Claimed-delivered call lic w s =
      let sid = lic.stripe_checkout_session_id in
      elim (Bool-cases (sid == "")) [
        | inl e ↦ rw (delivered, e) s
        | inr e ↦
            rw (delivered, e, complete_processed_event)
              (Stays-or_else "stripe" id "stripe_pending_session" sid refl (call.io 8) _
                (Stays-or_else "stripe" id "stripe_fulfill_claim" sid refl (call.io 7) _ s))
      ]

  Claimed-create_license :
      (call : CheckoutCall) (plan : Plan) (lic : License) (w : BillingState)
      → Claimed w
      → Claimed (create_license call plan lic w).0
  unfolding create_license Claimed
  Claimed-create_license call plan lic w s =
      let sid = lic.stripe_checkout_session_id in
      elim (Bool-cases (call.io 6 && subscription_free lic.stripe_subscription_id w.licenses)) [
        | inl e ↦ elim (Bool-cases (not (sid == "") && has_license sid w.licenses)) [
          | inl f ↦ rw (create_license, e, f) s
          | inr f ↦
              rw (create_license, e, f) (Claimed-delivered call lic (insert_license plan lic w) s)
        ]
        | inr e ↦ elim (Bool-cases (sid == "")) [
          | inl f ↦ rw (create_license, e, f) s
          | inr f ↦
              rw (create_license, e, f)
                (Stays-release "stripe" id call.releasing "stripe_fulfill" "stripe_fulfill_claim"
                  sid refl refl w.processed s)
        ]
      ]

  Claimed-claim_session :
      (call : CheckoutCall) (sid : String) (w : BillingState)
      → Claimed w
      → Claimed (claim_session call sid w).0
  unfolding claim_session Claimed
  Claimed-claim_session call sid w s =
      Stays-reserve "stripe" id call.reserving call.now "stripe_fulfill" "stripe_fulfill_claim" sid
        refl refl (some (if call.io 12 then some (has_license sid w.licenses) else none))
        w.processed s

  Claimed-if :
      (b : Bool) (x y : BillingState × Fulfilled)
      → Claimed x.0
      → Claimed y.0
      → Claimed (if b then x else y).0
  Claimed-if true x y s z = s
  Claimed-if false x y s z = z

  Claimed-when_claimed :
      (call : CheckoutCall) (sid : String) (plan : Plan) (lic : License) (w : BillingState)
      (r : Reserved)
      → Claimed w
      → Claimed (when_claimed call sid plan lic (w, r)).0
  unfolding when_claimed
  Claimed-when_claimed call sid plan lic w taken s = Claimed-create_license call plan lic w s
  Claimed-when_claimed call sid plan lic w finished s = s
  Claimed-when_claimed call sid plan lic w midway s = s
  Claimed-when_claimed call sid plan lic w reserve_failed s = s

  Claimed-claim_and_create :
      (call : CheckoutCall) (c : CheckoutSession) (plan : Plan) (email : String) (w : BillingState)
      → Claimed w
      → Claimed (claim_and_create call c plan email w).0
  unfolding claim_and_create
  Claimed-claim_and_create call c plan email w s =
      let lic = new_license call c plan email in
      let p = claim_session call c.id w in
      Claimed-if (c.id == "") (create_license call plan lic w) (when_claimed call c.id plan lic p)
        (Claimed-create_license call plan lic w s)
        (Claimed-when_claimed call c.id plan lic p.0 p.1 (Claimed-claim_session call c.id w s))

  Claimed-fulfill_new :
      (call : CheckoutCall) (c : CheckoutSession) (w : BillingState) (p : Option (Option Plan))
      (a : Option String)
      → find_plan call c ≡ p
      → find_email call c ≡ a
      → Claimed w
      → Claimed (fulfill_new call c w).0
  unfolding fulfill_new
  Claimed-fulfill_new call c w none a e f s = rw (fulfill_new, e) s
  Claimed-fulfill_new call c w (some none) a e f s = rw (fulfill_new, e) s
  Claimed-fulfill_new call c w (some (some plan)) none e f s = rw (fulfill_new, e, f) s
  Claimed-fulfill_new call c w (some (some plan)) (some email) e f s =
      elim (Bool-cases (email == "")) [
        | inl g ↦ rw (fulfill_new, e, f, g) s
        | inr g ↦ rw (fulfill_new, e, f, g) (Claimed-claim_and_create call c plan email w s)
      ]

  Claimed-fulfill_checkout :
      (call : CheckoutCall) (c : CheckoutSession) (w : BillingState) (a : Option Bool)
      → session_fulfilled call.io 0 c.id w ≡ a
      → Claimed w
      → Claimed (fulfill_checkout call c w).0
  unfolding fulfill_checkout
  Claimed-fulfill_checkout call c w a e s =
      let new = Claimed-fulfill_new call c w _ _ refl refl s in
      elim (Bool-cases (c.id == "")) [
        | inl n ↦ rw (fulfill_checkout, n) new
        | inr n ↦
            elim a
                as (λ a.
                  session_fulfilled call.io 0 c.id w ≡ a → Claimed (fulfill_checkout call c w).0) [
                    | none ↦ λ e. rw (fulfill_checkout, n, e) s
                    | some b ↦ λ e. elim (Bool-cases b) [
                      | inl f ↦ rw (fulfill_checkout, n, e, f) s
                      | inr f ↦ rw (fulfill_checkout, n, e, f) new
                    ]
                  ]
              e
      ]

  Claimed-remember :
      (failed runs : Bool) (now : ℕ) (sid : String) (w : BillingState)
      → Claimed w
      → Claimed (remember failed runs now sid w).0
  unfolding Claimed
  Claimed-remember failed runs now sid w s =
      elim (Option-cases
        (claim_processed_event runs now "stripe_pending_session" sid w.processed)) [
          | inl e ↦ rw (remember, e) s
          | inr (p, e) ↦
              rw (remember, e) (Stays-claim "stripe" id runs now _ sid w.processed {out = p} e s)
        ]

  Claimed-on_checkout_completed :
      (call : CheckoutCall) (c : CheckoutSession) (w : BillingState) (f : Fulfilled)
      → (fulfill_checkout call c w).1 ≡ f
      → Claimed w
      → Claimed (on_checkout_completed call c w).0
  unfolding on_checkout_completed
  Claimed-on_checkout_completed call c w f e s =
      let z = Claimed-fulfill_checkout call c w _ refl s in
      elim (Bool-cases (session_paid c.payment_status)) [
        | inr p ↦
            rw (on_checkout_completed, p) (Claimed-remember false (call.io 13) call.now c.id w s)
        | inl p ↦
            elim f
                as (λ f.
                  (fulfill_checkout call c w).1 ≡ f → Claimed (on_checkout_completed call c w).0) [
                    | fulfilled ↦ λ e. rw (on_checkout_completed, p, e) z
                    | unfulfilled ↦ λ e.
                        rw (on_checkout_completed, p, e)
                          (Claimed-remember false (call.io 13) call.now c.id _ z)
                    | fulfil_error ↦ λ e.
                        rw (on_checkout_completed, p, e)
                          (Claimed-remember true (call.io 13) call.now c.id _ z)
                  ]
              e
      ]

  Claimed-async_failed :
      (call : CheckoutCall) (sid : String) (w : BillingState)
      → Claimed w
      → Claimed (on_async_payment_failed call sid w)
  unfolding on_async_payment_failed Claimed
  Claimed-async_failed call sid w s = elim (Bool-cases (sid == "")) [
    | inl e ↦ rw (on_async_payment_failed, e) s
    | inr e ↦
        rw (on_async_payment_failed, e)
          (Stays-or_else "stripe" id "stripe_pending_session" sid refl (call.io 8) w.processed s)
  ]

  Claimed-Same : (w w' : BillingState) → Same w w' → Claimed w → Claimed w'
  unfolding Claimed
  Claimed-Same w w' q s = rw q s

  -- No handler drops the claim of an event.
  pub Claimed-handle :
      (d : Delivery) (e : StripeEvent) (w : BillingState)
      → Stays "stripe" id w.processed
      → Stays "stripe" id (handle d e w).0.processed
  unfolding handle Claimed
  Claimed-handle d (checkout_completed c) w s =
      Claimed-on_checkout_completed d.checkout c w _ refl s
  Claimed-handle d (async_payment_failed sid) w s = Claimed-async_failed d.checkout sid w s
  Claimed-handle d (invoice_paid x) w s =
      Claimed-Same w (on_invoice_paid d.billing x w) (Same-on_invoice_paid d.billing w x) s
  Claimed-handle d (subscription_updated x) w s =
      Claimed-Same w (on_subscription_updated d.billing x w)
        (Same-on_subscription_updated d.billing w x) s
  Claimed-handle d (subscription_deleted sid) w s =
      Claimed-Same w (on_subscription_deleted d.billing sid w)
        (Same-on_subscription_deleted d.billing w sid) s
  Claimed-handle d (payment_failed x) w s =
      Claimed-Same w (on_payment_failed d.billing x w) (Same-on_payment_failed d.billing w x) s
  Claimed-handle d (charge_refunded x) w s =
      Claimed-Same w (on_charge_refunded d.charge x w).0
        (Same-on_charge_refunded d.charge x w _ refl) s
  Claimed-handle d (dispute_created sid) w s = s
  Claimed-handle d (dispute_closed sid) w s = s
  Claimed-handle d (payment_action_required x) w s =
      Claimed-Same w (on_payment_action_required d.billing x w) (Same-quiet d.billing w x "").0 s
  Claimed-handle d (subscription_paused sid) w s =
      Claimed-Same w (on_subscription_paused d.billing sid w)
        (Same-on_subscription_paused d.billing w sid) s
  Claimed-handle d (subscription_resumed sid) w s =
      Claimed-Same w (on_subscription_resumed d.billing sid w)
        (Same-on_subscription_resumed d.billing w sid) s
  Claimed-handle d (trial_will_end sid) w s =
      Claimed-Same w (on_trial_will_end d.billing sid w)
        (Same-quiet d.billing w (record { subscription = ""; parent = ""; period_end = 0 }) sid).1 s
  Claimed-handle d (invoice_upcoming x) w s =
      Claimed-Same w (on_invoice_upcoming d.billing x w) (Same-quiet d.billing w x "").2 s
  Claimed-handle d (customer_updated sid email) w s =
      Claimed-Same w (on_customer_updated d.billing sid email w)
        (Same-on_customer_updated d.billing w sid email) s
  Claimed-handle d unhandled w s = s
