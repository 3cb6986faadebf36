-- ===== src/Payments.antt =====
-- What the Stripe events of internal/payment/stripe.go act on: the licenses, subscriptions and claims,
-- and the statements of internal/store/store.go that the handlers share. A handler reads and writes the
-- license in one step. The e-mail and webhook services are configured; the change sets of the audit rows
-- and the texts of the mails are left out.
pub mod Fulfil
pub mod Subscriptions
pub mod Claimed
pub mod Cases
pub mod Refunds
pub mod Refunded
pub mod Sold
pub mod Processed
pub mod Once
pub mod Overdue
pub mod Clock
pub mod Lost
mod Tests
pub mod Checkout
pub mod Webhook
use Prim.Native.String.{◌++◌ as concat}
use saas_admin.Prelude.{
  ℕ, zero, suc, ◌+◌, ◌-◌, ◌*◌, ◌/◌, ◌%◌, ◌^◌, ◌≤◌, ◌<◌, min, max, String, ◌≡◌, refl, sym, ap, ◌∙◌,
  ◌≢◌, ◌↔◌, ◌⊎◌, inl, inr, Bool, true, false, not, ◌&&◌, ◌||◌, Option, none, some, List, [], ◌∷◌,
  ◌++◌, map, arith, ◌==◌, eq_iff, eq_refl, ltb, leb, nat_eq, if◌then◌else◌, ltb→lt, lt→ltb, leb→le,
  le→leb, Bool-cases, Option-cases, length, All,
}
use saas_admin.Prelude.Table.{select, update}
use saas_admin.Database.{Io}
use saas_admin.Model.{
  Status, active, trialing, past_due, canceled, suspended, License, AuditLog, Event, second,
}
use saas_admin.Events.{ProcessedEvent}
use saas_admin.Expiry.{Subscription, has_id, is_past_due}

-- A row of notifications: what was sent for a license.
pub record Notification : Type 0 where
  pub license_id : String
  pub tag : String

-- A mail that was sent: which, and to whom.
pub record Mail : Type 0 where
  pub kind : String
  pub to : String

pub record BillingState : Type 0 where
  pub licenses : List License
  pub subscriptions : List Subscription
  pub notifications : List Notification
  pub processed : List ProcessedEvent
  pub audits : List AuditLog
  pub events : List Event
  pub mails : List Mail

-- Statement 0 finds the license, 1 is the transaction that writes it, 2 looks for a notification, and 3
-- records it. `decimal` is the verb %d.
pub record BillingCall : Type 0 where
  pub now : ℕ
  pub io : Io
  pub decimal : ℕ → String

-- The columns that a handler writes.
pub data Column : Type 0 where
  status_column valid_until_column canceled_at_column past_due_at_column suspended_at_column :
      Column

abbrev pub copy_column : Column → License → License → License
copy_column status_column lic row = record row { status = lic.status }
copy_column valid_until_column lic row = record row { valid_until = lic.valid_until }
copy_column canceled_at_column lic row = record row { canceled_at = lic.canceled_at }
copy_column past_due_at_column lic row = record row { past_due_at = lic.past_due_at }
copy_column suspended_at_column lic row = record row { suspended_at = lic.suspended_at }

abbrev pub copy_columns : List Column → License → License → License
copy_columns [] lic row = row
copy_columns (c ∷ cols) lic row = copy_column c lic (copy_columns cols lic row)

-- The columns of the license and the time, and its subscription's status. `none` is an error: nothing
-- is written.
unfoldable pub update_license_and_subscription :
    BillingCall → License → List Column → BillingState → Option BillingState
update_license_and_subscription call lic cols w =
    if call.io 1
    then some (record w {
      licenses =
          update (has_id lic.id)
            (λ row. record (copy_columns cols lic row) { updated_at = call.now }) w.licenses;
      subscriptions =
          update (λ (s : Subscription). s.license_id == lic.id)
            (λ s. record s { status = lic.status }) w.subscriptions;
    })
    else none

-- The error is dropped.
abbrev pub save : BillingCall → License → List Column → BillingState → BillingState
save call lic cols w = elim (update_license_and_subscription call lic cols w) [
  | none ↦ w
  | some w' ↦ w'
]

-- The column is NULL where the text is empty.
abbrev pub by_subscription : String → License → Bool
by_subscription id lic = not (id == "") && (lic.stripe_subscription_id == id)

-- What a handler does with the license of a subscription. It stops without one, and when the query
-- fails.
abbrev pub with_license :
    BillingCall → String → (License → BillingState → BillingState) → BillingState → BillingState
with_license call id handle w =
    if call.io 0
    then elim (select (by_subscription id) w.licenses) [ none ↦ w | some lic ↦ handle lic w ]
    else w

abbrev pub audited : String → License → BillingState → BillingState
audited action lic w = record w {
  audits =
      record { entity = "license"; entity_id = lic.id; action = action; actor_type = "webhook" }
      ∷ w.audits;
}

abbrev pub dispatched : String → License → BillingState → BillingState
dispatched event lic w = record w {
  events = record { product_id = lic.product_id; event = event; license_id = lic.id } ∷ w.events;
}

abbrev pub mailed : String → License → BillingState → BillingState
mailed kind lic w = record w { mails = record { kind = kind; to = lic.email } ∷ w.mails }

abbrev pub is_notification : String → String → Notification → Bool
is_notification id tag n = (n.license_id == id) && (n.tag == tag)

abbrev pub sent : String → String → List Notification → Bool
sent id tag t = elim (select (is_notification id tag) t) [ none ↦ false | some n ↦ true ]

-- An error reads as false.
abbrev pub has_notification : Bool → String → String → List Notification → Bool
has_notification runs id tag t = runs && sent id tag t

-- ON CONFLICT DO NOTHING
abbrev pub record_notification : Bool → String → String → List Notification → List Notification
record_notification runs id tag t =
    if runs && not (sent id tag t) then record { license_id = id; tag = tag } ∷ t else t

-- The start of the past-due episode in seconds, 0 without one.
abbrev pub episode_of : License → ℕ
episode_of lic = elim lic.past_due_at [ none ↦ 0 | some t ↦ t / second ]

abbrev pub recovered_tag : BillingCall → ℕ → String
recovered_tag call episode =
    if ltb 0 episode
    then concat "payment_recovered:" (call.decimal episode)
    else "payment_recovered"

unfoldable pub notify_payment_recovered : BillingCall → License → ℕ → BillingState → BillingState
notify_payment_recovered call lic episode w =
    let tag = recovered_tag call episode in
    if has_notification (call.io 2) lic.id tag w.notifications
    then w
    else (let w' = mailed "payment_recovered" lic w in
        dispatched "license.payment_recovered" lic (record w' {
          notifications = record_notification (call.io 3) lic.id tag w'.notifications;
        }))
