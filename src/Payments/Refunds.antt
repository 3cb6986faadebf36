-- ===== src/Payments/Refunds.antt =====
-- Refunds and disputes of internal/payment/stripe.go: which license a charge paid for, and what a
-- refund takes away.
use saas_admin.Prelude.{
  ℕ, String, Bool, true, false, Option, none, some, List, [], ◌∷◌, ◌==◌, ltb, if◌then◌else◌,
}
use saas_admin.Prelude.Rows.{select_all}
use saas_admin.Prelude.Table.{select}
use saas_admin.Model.{Status, revoked, License}
use saas_admin.Payments.{
  BillingState, BillingCall, status_column, update_license_and_subscription, by_subscription,
  audited,
}

pub record ChargeEvent : Type 0 where
  pub id : String
  pub customer : String
  pub amount_refunded : ℕ
  pub refunded : Bool
  pub payment_intent : String
  pub invoice : String

-- What Stripe says of an invoice: its subscription, `none` if it has none; that there is no invoice; or
-- an error.
pub data InvoiceAnswer : Type 0 where
  invoice_of : Option String → InvoiceAnswer
  no_invoice invoice_error : InvoiceAnswer

-- Store calls beside those of `billing`: 4 looks for the payment intent, 5 and 6 for the license of an
-- invoice, and 7 for those of the customer. `invoice` answers for the charge's invoice, `payment` for
-- the first payment of its intent.
pub record ChargeCall : Type 0 where
  pub billing : BillingCall
  pub invoice : InvoiceAnswer
  pub payment : InvoiceAnswer

-- (license, nil), (nil, nil), and an error.
pub data Charged : Type 0 where
  attributed : License → Charged
  unattributed lookup_error : Charged

abbrev pub charged : Bool → Option License → Charged
charged false answer = lookup_error
charged true none = unattributed
charged true (some lic) = attributed lic

unfoldable pub license_for_invoice : Bool → Option String → List License → Charged
license_for_invoice runs none t = unattributed
license_for_invoice runs (some id) t = charged runs (select (by_subscription id) t)

unfoldable pub by_invoice : Bool → InvoiceAnswer → List License → Charged
unfolding license_for_invoice
by_invoice runs (invoice_of id) t = license_for_invoice runs id t
by_invoice runs no_invoice t = unattributed
by_invoice runs invoice_error t = lookup_error

abbrev pub or_next : Charged → Charged → Charged
or_next (attributed lic) next = attributed lic
or_next unattributed next = next
or_next lookup_error next = lookup_error

abbrev pub with_intent : String → License → Bool
with_intent id lic = lic.stripe_payment_intent_id == id

abbrev pub of_customer : String → License → Bool
of_customer id lic = lic.stripe_customer_id == id

-- The audit row of a charge that fits several licenses.
abbrev pub unmatched : ChargeEvent → BillingState → BillingState
unmatched charge w = record w {
  audits =
      record {
        entity = "charge";
        entity_id = charge.id;
        action = "unmatched";
        actor_type = "webhook";
      }
      ∷ w.audits;
}

-- The only license of the customer.
abbrev pub only_license : ChargeEvent → List License → BillingState → BillingState × Charged
only_license charge [] w = (w, unattributed)
only_license charge (lic ∷ []) w = (w, attributed lic)
only_license charge (lic ∷ other ∷ rest) w = (unmatched charge w, unattributed)

unfoldable pub by_customer : Bool → ChargeEvent → BillingState → BillingState × Charged
unfolding select_all
by_customer runs charge w =
    if charge.customer == ""
    then (w, unattributed)
    else if runs
    then only_license charge (select_all (of_customer charge.customer) w.licenses) w
    else (w, lookup_error)

-- The intent, the charge's invoice and the invoice of the payment, in this order.
unfoldable pub by_payment : ChargeCall → ChargeEvent → List License → Charged
unfolding by_invoice select
by_payment call charge t =
    or_next
      (if charge.payment_intent == ""
        then unattributed
        else charged (call.billing.io 4) (select (with_intent charge.payment_intent) t))
      (or_next
        (if charge.invoice == ""
          then unattributed
          else by_invoice (call.billing.io 5) call.invoice t)
        (if charge.payment_intent == ""
          then unattributed
          else by_invoice (call.billing.io 6) call.payment t))

unfoldable pub license_for_charge : ChargeCall → ChargeEvent → BillingState → BillingState × Charged
unfolding by_payment by_customer
license_for_charge call charge w = elim (by_payment call charge w.licenses) [
  | attributed lic ↦ (w, attributed lic)
  | unattributed ↦ by_customer (call.billing.io 7) charge w
  | lookup_error ↦ (w, lookup_error)
]

abbrev pub is_revoked : Status → Bool
is_revoked revoked = true
is_revoked _ = false

abbrev pub revoke : License → License
revoke lic = record lic { status = revoked }

-- What a refund does to the license that the charge paid for. The answer is whether there is an error.
unfoldable pub refund : ChargeCall → ChargeEvent → License → BillingState → BillingState × Bool
unfolding update_license_and_subscription
refund call charge lic w =
    if charge.refunded
    then if is_revoked lic.status
      then (w, false)
      else elim (update_license_and_subscription call.billing (revoke lic) (status_column ∷ []) w) [
        | none ↦ (w, true)
        | some w' ↦ (audited "revoked" lic w', false)
      ]
    else if ltb 0 charge.amount_refunded
    then (audited "partial_refund" lic w, false)
    else (w, false)

unfoldable pub on_charge_refunded : ChargeCall → ChargeEvent → BillingState → BillingState × Bool
unfolding license_for_charge refund
on_charge_refunded call charge w =
    let p = license_for_charge call charge w in
    elim p.1 [
      | attributed lic ↦ refund call charge lic p.0
      | unattributed ↦ (p.0, false)
      | lookup_error ↦ (p.0, true)
    ]

-- `onDisputeCreated` and `onDisputeClosed` write an audit row each.
abbrev pub on_dispute : String → String → BillingState → BillingState
on_dispute action id w = record w {
  audits =
      record { entity = "dispute"; entity_id = id; action = action; actor_type = "webhook" }
      ∷ w.audits;
}
