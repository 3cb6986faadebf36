-- ===== src/Payments/Checkout.antt =====
-- The parts of a checkout session's fulfilment, internal/payment/stripe.go over internal/store/store.go:
-- the plan, the license and the mail. The user of the license and the text of the mail are left out.
use saas_admin.Prelude.{
  ℕ, ◌+◌, ◌*◌, String, Bool, true, false, not, ◌&&◌, ◌||◌, Option, none, some, List, ◌∷◌, ◌==◌, ltb,
  if◌then◌else◌,
}
use saas_admin.Prelude.Table.{select}
use saas_admin.Database.{Io}
use saas_admin.Model.{Plan, License, active, trialing, day}
use saas_admin.Events.{
  complete_processed_event, delete_processed_event, has_processed_event, or_else,
}
use saas_admin.Payments.{BillingState, mailed, dispatched}

-- A completed session. The address is the session's, or the one typed during the checkout; `plan_id`
-- is that of the metadata.
pub record CheckoutSession : Type 0 where
  pub id : String
  pub email : String
  pub customer : String
  pub subscription : String
  pub payment_intent : String
  pub payment_status : String
  pub plan_id : String

-- The price of a subscription's first item or of a session's first line item, that there is none, or
-- an error.
pub data PriceAnswer : Type 0 where
  price_of : String → PriceAnswer
  no_price price_error : PriceAnswer

-- The address of a customer, that there is no customer, or an error.
pub data CustomerAnswer : Type 0 where
  customer_email : String → CustomerAnswer
  no_customer customer_error : CustomerAnswer

-- Store calls: 0 to 2 look whether the session is fulfilled, 3 to 5 for the plan, 6 inserts the
-- license, 7 completes the claim, 8 drops the pending marker, 9 to 11 look again whether the session
-- is fulfilled, 12 looks for a license in the claim. `reserving` and `releasing` are the statements of
-- the claim. `subscription` and `line_item` are Stripe's prices, `source` is what the audit row says.
pub record CheckoutCall : Type 0 where
  pub now : ℕ
  pub io : Io
  pub reserving : Io
  pub releasing : Io
  pub new_id : String
  pub license_key : String
  pub plans : List Plan
  pub subscription : PriceAnswer
  pub line_item : PriceAnswer
  pub customer : CustomerAnswer
  pub source : String

abbrev pub session_paid : String → Bool
session_paid status = (status == "paid") || (status == "no_payment_required")

abbrev pub by_session : String → License → Bool
by_session id lic = lic.stripe_checkout_session_id == id

abbrev pub has_license : String → List License → Bool
has_license id t = elim (select (by_session id) t) [ none ↦ false | some lic ↦ true ]

-- The providers "stripe_fulfill" and "stripe_fulfill_claim": `none` is an error.
unfoldable pub session_fulfilled : Io → ℕ → String → BillingState → Option Bool
unfolding has_processed_event
session_fulfilled io n id w =
    if not (io n)
    then none
    else if has_license id w.licenses
    then some true
    else elim (has_processed_event (io (n + 1)) "stripe_fulfill" id w.processed) [
      | none ↦ none
      | some reserved ↦
          if not reserved
          then some false
          else elim (has_processed_event (io (n + 2)) "stripe_fulfill_claim" id w.processed) [
            | none ↦ none
            | some inflight ↦ some (not inflight)
          ]
    ]

abbrev pub for_price : String → Plan → Bool
for_price id plan = plan.stripe_price_id == id

-- `none` is an error, here and below.
unfoldable pub plan_for_price : Bool → PriceAnswer → List Plan → Option (Option Plan)
unfolding select
plan_for_price runs (price_of id) plans = if runs then some (select (for_price id) plans) else none
plan_for_price runs no_price plans = some none
plan_for_price runs price_error plans = none

abbrev pub or_plan : Option (Option Plan) → Option (Option Plan) → Option (Option Plan)
or_plan none next = none
or_plan (some none) next = next
or_plan (some (some plan)) next = some (some plan)

-- The plan of the subscription's price, of the metadata, and of the line item's price, in this order.
unfoldable pub find_plan : CheckoutCall → CheckoutSession → Option (Option Plan)
unfolding plan_for_price select
find_plan call s =
    or_plan
      (if s.subscription == ""
        then some none
        else plan_for_price (call.io 3) call.subscription call.plans)
      (or_plan
        (if s.plan_id == ""
          then some none
          else if call.io 4
          then some (select (λ (plan : Plan). plan.id == s.plan_id) call.plans)
          else none)
        (if s.id == "" then some none else plan_for_price (call.io 5) call.line_item call.plans))

-- The customer's address where Stripe has one.
abbrev pub find_email : CheckoutCall → CheckoutSession → Option String
find_email call s = if s.customer == "" then some s.email else elim call.customer [
  | customer_email e ↦ some (if not (e == "") then e else s.email)
  | no_customer ↦ some s.email
  | customer_error ↦ none
]

abbrev pub is_trial : Plan → Bool
is_trial plan = plan.license_type == "trial"

abbrev pub new_license : CheckoutCall → CheckoutSession → Plan → String → License
new_license call s plan email = record {
  id = call.new_id;
  product_id = plan.product_id;
  plan_id = plan.id;
  email = email;
  license_key = call.license_key;
  key_hash = call.license_key;
  stripe_customer_id = s.customer;
  stripe_subscription_id = s.subscription;
  stripe_payment_intent_id = s.payment_intent;
  stripe_checkout_session_id = s.id;
  status = if is_trial plan then trialing else active;
  valid_until =
      if is_trial plan && ltb 0 plan.trial_days
      then some (call.now + plan.trial_days * day)
      else none;
  canceled_at = none;
  suspended_at = none;
  past_due_at = none;
  updated_at = call.now;
  external_customer_id = "";
  external_workspace_id = "";
  product = none;
  plan = some plan;
}

-- (true, nil), (false, nil), and an error.
pub data Fulfilled : Type 0 where
  fulfilled unfulfilled fulfil_error : Fulfilled

abbrev pub answered : Option Bool → Fulfilled
answered none = fulfil_error
answered (some done) = if done then fulfilled else unfulfilled

abbrev pub has_subscription : Plan → Bool
has_subscription plan = (plan.license_type == "subscription") || is_trial plan

-- `CreateLicenseWithSubscription`, with the unique index on the session of a license.
abbrev pub insert_license : Plan → License → BillingState → BillingState
insert_license plan lic w = record w {
  licenses = lic ∷ w.licenses;
  subscriptions =
      if has_subscription plan
      then record { license_id = lic.id; status = lic.status } ∷ w.subscriptions
      else w.subscriptions;
}

-- What follows the insert: the claim is completed, and the mail, the audit row and the event go out.
unfoldable pub delivered : CheckoutCall → License → BillingState → BillingState
unfolding complete_processed_event delete_processed_event
delivered call lic w =
    let id = lic.stripe_checkout_session_id in
    let t =
      or_else w.processed
        (complete_processed_event (call.io 7) "stripe_fulfill_claim" id w.processed) in
    let t' = or_else t (delete_processed_event (call.io 8) "stripe_pending_session" id t) in
    let w' = record w { processed = if id == "" then w.processed else t' } in
    dispatched "license.created" lic (record (mailed "license" lic w') {
      audits =
          record {
            entity = "license";
            entity_id = lic.id;
            action = "created";
            actor_type = call.source;
          }
          ∷ w'.audits;
    })
