-- ===== src/Payments/Fulfil.antt =====
-- How a paid session becomes a license: `fulfillCheckout` of internal/payment/stripe.go, and the checkout
-- events.
use saas_admin.Prelude.{
  ℕ, String, Bool, true, false, not, ◌&&◌, none, some, List, ◌==◌, if◌then◌else◌,
}
use saas_admin.Prelude.Table.{select}
use saas_admin.Model.{Plan, License}
use saas_admin.Events.{
  Reserved, taken, finished, midway, reserve_failed, reserve, release, delete_processed_event,
  claim_processed_event, or_else,
}
use saas_admin.Payments.{BillingState, by_subscription}
use saas_admin.Payments.Checkout.{
  CheckoutCall, CheckoutSession, Fulfilled, answered, delivered, find_email, find_plan,
  fulfil_error, fulfilled, has_license, insert_license, new_license, session_fulfilled,
  session_paid, unfulfilled,
}

-- A subscription has one license: the unique constraint, which PostgreSQL checks before the index on
-- sessions.
abbrev pub subscription_free : String → List License → Bool
subscription_free id t = elim (select (by_subscription id) t) [ none ↦ true | some lic ↦ false ]

-- The claim is given back when the license cannot be written.
unfoldable pub create_license :
    CheckoutCall → Plan → License → BillingState → BillingState × Fulfilled
unfolding release delivered
create_license call plan lic w =
    let id = lic.stripe_checkout_session_id in
    if call.io 6 && subscription_free lic.stripe_subscription_id w.licenses
    then if not (id == "") && has_license id w.licenses
      then (w, fulfilled)
      else (delivered call lic (insert_license plan lic w), fulfilled)
    else (
      record w {
        processed =
            if id == ""
            then w.processed
            else (release call.releasing "stripe_fulfill" "stripe_fulfill_claim" id w.processed).0;
      },
      fulfil_error,
    )

unfoldable pub claim_session : CheckoutCall → String → BillingState → BillingState × Reserved
unfolding reserve
claim_session call id w =
    let answer = if call.io 12 then some (has_license id w.licenses) else none in
    let p =
      reserve call.reserving call.now "stripe_fulfill" "stripe_fulfill_claim" id (some answer)
        w.processed in
    (record w { processed = p.0 }, p.1)

-- What the answer to the claim leads to.
unfoldable pub when_claimed :
    CheckoutCall → String → Plan → License → BillingState × Reserved → BillingState × Fulfilled
unfolding create_license session_fulfilled
when_claimed call id plan lic p = elim p.1 [
  | taken ↦ create_license call plan lic p.0
  | finished ↦ (p.0, answered (session_fulfilled call.io 9 id p.0))
  | midway ↦ (p.0, answered (session_fulfilled call.io 9 id p.0))
  | reserve_failed ↦ (p.0, fulfil_error)
]

-- The claim, and what the caller who holds it does.
unfoldable pub claim_and_create :
    CheckoutCall → CheckoutSession → Plan → String → BillingState → BillingState × Fulfilled
unfolding claim_session create_license when_claimed
claim_and_create call s plan email w =
    let lic = new_license call s plan email in
    if s.id == ""
    then create_license call plan lic w
    else when_claimed call s.id plan lic (claim_session call s.id w)

-- A session that is not fulfilled yet.
unfoldable pub fulfill_new :
    CheckoutCall → CheckoutSession → BillingState → BillingState × Fulfilled
unfolding find_plan claim_and_create
fulfill_new call s w = elim (find_plan call s) [
  | none ↦ (w, fulfil_error)
  | some found ↦ elim found [
    | none ↦ (w, unfulfilled)
    | some plan ↦ elim (find_email call s) [
      | none ↦ (w, fulfil_error)
      | some email ↦ if email == "" then (w, unfulfilled) else claim_and_create call s plan email w
    ]
  ]
]

unfoldable pub fulfill_checkout :
    CheckoutCall → CheckoutSession → BillingState → BillingState × Fulfilled
unfolding session_fulfilled fulfill_new
fulfill_checkout call s w =
    if s.id == "" then fulfill_new call s w else elim (session_fulfilled call.io 0 s.id w) [
      | none ↦ (w, fulfil_error)
      | some done ↦ if done then (w, fulfilled) else fulfill_new call s w
    ]

-- The pending marker keeps the session in the periodic sync. The error is reported; `failed` is the
-- error so far.
abbrev pub remember : Bool → Bool → ℕ → String → BillingState → BillingState × Bool
remember failed runs now id w =
    elim (claim_processed_event runs now "stripe_pending_session" id w.processed) [
      | none ↦ (w, true)
      | some p ↦ (record w { processed = p.1 }, failed)
    ]

-- Statement 13 writes the marker.
unfoldable pub on_checkout_completed :
    CheckoutCall → CheckoutSession → BillingState → BillingState × Bool
unfolding fulfill_checkout claim_processed_event
on_checkout_completed call s w =
    if not (session_paid s.payment_status)
    then remember false (call.io 13) call.now s.id w
    else (let p = fulfill_checkout call s w in
        elim p.1 [
          | fulfilled ↦ (p.0, false)
          | unfulfilled ↦ remember false (call.io 13) call.now s.id p.0
          | fulfil_error ↦ remember true (call.io 13) call.now s.id p.0
        ])

-- Statement 8 drops the marker.
unfoldable pub on_async_payment_failed : CheckoutCall → String → BillingState → BillingState
unfolding delete_processed_event
on_async_payment_failed call id w = if id == "" then w else record w {
  processed =
      or_else w.processed
        (delete_processed_event (call.io 8) "stripe_pending_session" id w.processed);
}
