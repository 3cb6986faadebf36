-- ===== src/Payments/Tests.antt =====
-- Tests of the Stripe events, and their theorems at concrete data.
use saas_admin.Prelude.{
  ◌*◌, ◌≡◌, refl, true, not, ◌&&◌, none, some, [], ◌∷◌, arith, ◌==◌, leb, if◌then◌else◌,
}
use saas_admin.Prelude.Table.{select, count, update, delete}
use saas_admin.Database.{Io, healthy}
use saas_admin.Model.{License, active, past_due, revoked, second}
use saas_admin.Licensing.Sample.{license, plan}
use saas_admin.Events.{
  has_processed_event, reserve, reserve_ours, claim_processed_event, delete_processed_event,
  complete_processed_event,
}
use saas_admin.Payments.{BillingState, BillingCall, update_license_and_subscription}
use saas_admin.Payments.Subscriptions.{SubscriptionEvent}
use saas_admin.Payments.Refunds.{
  ChargeEvent, ChargeCall, invoice_of, no_invoice, on_charge_refunded, license_for_charge, refund,
  by_payment, by_invoice, license_for_invoice,
}
use saas_admin.Payments.Refunded.{Refunded, on_charge_refunded-Refunded}
use saas_admin.Payments.Checkout.{
  find_plan, plan_for_price, delivered, has_license, CheckoutSession, CheckoutCall, price_of,
  no_price, customer_email, fulfilled, session_fulfilled,
}
use saas_admin.Payments.Fulfil.{
  create_license, fulfill_new, claim_and_create, claim_session, when_claimed, fulfill_checkout,
}
use saas_admin.Payments.Sold.{fulfill_checkout_sells, Sold, fulfill_checkout-Sold}
use saas_admin.Payments.Webhook.{
  StripeEvent, subscription_deleted, subscription_updated, Delivery, StripeHandler, Request, handle,
  refused, settle, webhook,
}
use saas_admin.Payments.Once.{Idle, took_effect, webhook_once}
use saas_admin.Payments.Overdue.{Clock}
use saas_admin.Payments.Clock.{handle-Clock}
use saas_admin.Payments.Lost.{failed_write_lost}

abbrev state : License → BillingState
state lic = record {
  licenses = lic ∷ [];
  subscriptions = record { license_id = "lic"; status = active } ∷ [];
  notifications = [];
  processed = [];
  audits = [];
  events = [];
  mails = [];
}

abbrev billing : Io → BillingCall
billing io = record { now = 5 * second; io = io; decimal = λ n. "0" }

abbrev charge_call : Io → ChargeCall
charge_call io = record {
  billing = billing io;
  invoice = invoice_of (some "sub");
  payment = no_invoice;
}

abbrev checkout_call : CheckoutCall
checkout_call = record {
  now = 5 * second;
  io = healthy;
  reserving = healthy;
  releasing = healthy;
  new_id = "lic2";
  license_key = "KEY2";
  plans = plan ∷ [];
  subscription = price_of "price";
  line_item = no_price;
  customer = customer_email "buyer@example.com";
  source = "webhook";
}

abbrev session : CheckoutSession
session = record {
  id = "cs";
  email = "";
  customer = "cus";
  subscription = "sub2";
  payment_intent = "";
  payment_status = "paid";
  plan_id = "";
}

abbrev delivery : Io → Delivery
delivery io = record {
  now = 5 * second;
  claiming = healthy;
  releasing = healthy;
  completes = true;
  billing = billing io;
  charge = charge_call io;
  checkout = checkout_call;
}

abbrev handler : StripeHandler
handler = record {
  livemode = true;
  webhook_secret = "whsec";
  prev_webhook_secret = "";
  prev_secret_until = 0;
  api_version = "2025-03-31.basil";
  train = λ v. if v == "2025-03-31.basil" then some "basil" else none;
}

abbrev request : Request
request = record {
  readable = true;
  verifies = λ secret. secret == "whsec";
  event_id = "evt";
  api_version = "2025-03-31.basil";
  livemode = true;
}

abbrev refund_charge : ChargeEvent
refund_charge = record {
  id = "ch";
  customer = "cus";
  amount_refunded = 100;
  refunded = true;
  payment_intent = "";
  invoice = "in";
}

refund_revokes :
    (on_charge_refunded (charge_call healthy) refund_charge (state license)).0.licenses
    ≡ record license { status = revoked; updated_at = 5 * second } ∷ []
unfolding on_charge_refunded license_for_charge refund by_payment by_invoice license_for_invoice
    update_license_and_subscription select update
refund_revokes = refl

on_charge_refunded-Refunded_example :
    Refunded
      (charge_call healthy)
      refund_charge
      (license ∷ [])
      (on_charge_refunded (charge_call healthy) refund_charge (state license)).0.licenses
on_charge_refunded-Refunded_example =
    on_charge_refunded-Refunded (charge_call healthy) refund_charge (state license)

session_sold : (fulfill_checkout checkout_call session (state license)).1 ≡ fulfilled
unfolding fulfill_checkout session_fulfilled fulfill_new find_plan plan_for_price claim_and_create
    claim_session reserve claim_processed_event reserve_ours delete_processed_event when_claimed
    create_license delivered complete_processed_event has_processed_event select delete
session_sold = refl

fulfill_checkout-Sold_example :
    Sold "cs" (license ∷ []) (fulfill_checkout checkout_call session (state license))
fulfill_checkout-Sold_example = fulfill_checkout-Sold checkout_call session (state license) refl

abbrev ended : StripeEvent
ended = subscription_deleted "sub"

webhook_once_example :
    let w' = (webhook handler (delivery healthy) request ended (state license)).0 in
    Idle w' (webhook handler (delivery healthy) request ended w')
unfolding webhook refused reserve claim_processed_event reserve_ours delete_processed_event settle
    handle complete_processed_event select delete
webhook_once_example =
    webhook_once handler handler (delivery healthy) (delivery healthy) request request ended ended
      (state license) refl refl

-- A license that is past due since the third second.
abbrev late : License
late = record license { status = past_due; past_due_at = some (3 * second) }

abbrev still_late : SubscriptionEvent
still_late = record { id = "sub"; status = "past_due"; current_period_end = 9; items = [] }

handle-Clock_example :
    Clock "lic"
      (3 * second)
      (handle (delivery healthy) (subscription_updated still_late) (state late)).0.licenses
unfolding select count
handle-Clock_example =
    handle-Clock (delivery healthy) (subscription_updated still_late) (state late) "lic"
      (3 * second) late (omega arith) refl refl refl refl

-- The license is found, and its write fails.
abbrev no_write : Io
no_write n = not (leb 1 n && leb n 1)

failed_write_lost_example :
    let after = webhook handler (delivery no_write) request ended (state license) in
    (took_effect after.1 ≡ true)
    × (after.0.licenses ≡ license ∷ [])
    × ((webhook handler (delivery healthy) request ended after.0).0.licenses ≡ license ∷ [])
unfolding refused reserve claim_processed_event reserve_ours delete_processed_event select delete
failed_write_lost_example =
    failed_write_lost handler handler (delivery no_write) (delivery healthy) request request ended
      ended (state license) refl refl refl refl refl refl

fulfill_checkout_sells_example :
    ((fulfill_checkout checkout_call session (state license)).1 ≡ fulfilled)
    × (has_license "cs" (fulfill_checkout checkout_call session (state license)).0.licenses ≡ true)
unfolding find_plan plan_for_price select
fulfill_checkout_sells_example =
    fulfill_checkout_sells checkout_call session (state license) plan "buyer@example.com" refl refl
      refl refl refl refl refl refl
