-- ===== src/Payments/Subscriptions.antt =====
-- The handlers of subscription, invoice and customer events of internal/payment/stripe.go.
use saas_admin.Prelude.{
  ℕ, ◌*◌, String, Bool, true, false, not, ◌&&◌, ◌||◌, Option, none, some, List, [], ◌∷◌, ◌==◌, ltb,
  if◌then◌else◌,
}
use saas_admin.Prelude.Table.{update}
use saas_admin.Model.{Status, active, trialing, past_due, canceled, suspended, License, second}
use saas_admin.Expiry.{is_past_due}
use saas_admin.Payments.{
  BillingCall, BillingState, Column, audited, canceled_at_column, dispatched, episode_of, mailed,
  notify_payment_recovered, past_due_at_column, save, status_column, suspended_at_column,
  update_license_and_subscription, valid_until_column, with_license,
}

-- `parent` is parent.subscription_details.subscription, "" where a part is missing.
pub record InvoiceEvent : Type 0 where
  pub subscription : String
  pub parent : String
  pub period_end : ℕ

abbrev pub subscription_id : InvoiceEvent → String
subscription_id invoice =
    if not (invoice.subscription == "") then invoice.subscription else invoice.parent

-- `items` are the period ends of the items.
pub record SubscriptionEvent : Type 0 where
  pub id : String
  pub status : String
  pub current_period_end : ℕ
  pub items : List ℕ

abbrev pub latest : ℕ → List ℕ → ℕ
latest end [] = end
latest end (t ∷ rest) = latest (if ltb end t then t else end) rest

-- `PeriodEnd`
abbrev pub period_end_of : SubscriptionEvent → ℕ
period_end_of e = if ltb 0 e.current_period_end then e.current_period_end else latest 0 e.items

abbrev pub with_invoice :
    BillingCall
    → InvoiceEvent
    → (License → BillingState → BillingState)
    → BillingState
    → BillingState
with_invoice call invoice handle w =
    if subscription_id invoice == ""
    then w
    else with_license call (subscription_id invoice) handle w

abbrev pub paid : ℕ → License → License
paid until lic = record lic { valid_until = some until; status = active; past_due_at = none }

abbrev pub paid_columns : List Column
paid_columns = valid_until_column ∷ status_column ∷ past_due_at_column ∷ []

-- A write, and the news of a recovery where the episode is over.
abbrev pub write_and_tell :
    BillingCall → License → List Column → ℕ → Bool → BillingState → BillingState
write_and_tell call lic cols episode tells w =
    let w' = save call lic cols w in
    if tells then notify_payment_recovered call lic episode w' else w'

abbrev pub pay : BillingCall → InvoiceEvent → License → BillingState → BillingState
pay call invoice lic w =
    write_and_tell call (paid (invoice.period_end * second) lic) paid_columns (episode_of lic)
      (is_past_due lic.status) w

unfoldable pub on_invoice_paid : BillingCall → InvoiceEvent → BillingState → BillingState
unfolding update_license_and_subscription notify_payment_recovered
on_invoice_paid call invoice w = with_invoice call invoice (pay call invoice) w

-- The first failure of an episode sets its anchor.
abbrev pub anchored : ℕ → Option ℕ → Option ℕ
anchored now none = some now
anchored now (some t) = some t

-- The status of the event, on the license.
abbrev pub moved : ℕ → String → License → License
moved now status lic =
    if status == "active"
    then record lic { status = active; past_due_at = none }
    else if status == "past_due"
    then record lic { status = past_due; past_due_at = anchored now lic.past_due_at }
    else if status == "trialing"
    then record lic { status = trialing }
    else if (status == "canceled") || (status == "unpaid")
    then record lic { status = canceled; canceled_at = some now; past_due_at = none }
    else lic

-- The end of the period, if the event has one.
abbrev pub prolonged : SubscriptionEvent → License → License
prolonged e lic =
    if ltb 0 (period_end_of e)
    then record lic { valid_until = some (period_end_of e * second) }
    else lic

abbrev pub moved_columns : SubscriptionEvent → List Column
moved_columns e =
    if ltb 0 (period_end_of e)
    then status_column ∷ valid_until_column ∷ canceled_at_column ∷ past_due_at_column ∷ []
    else status_column ∷ canceled_at_column ∷ past_due_at_column ∷ []

abbrev pub is_active : Status → Bool
is_active active = true
is_active _ = false

abbrev pub follow : BillingCall → SubscriptionEvent → License → BillingState → BillingState
follow call e lic w =
    let lic' = prolonged e (moved call.now e.status lic) in
    write_and_tell call lic' (moved_columns e) (episode_of lic)
      (is_past_due lic.status && is_active lic'.status) w

unfoldable pub on_subscription_updated :
    BillingCall → SubscriptionEvent → BillingState → BillingState
unfolding update_license_and_subscription notify_payment_recovered
on_subscription_updated call e w = with_license call e.id (follow call e) w

-- A write with an audit row and an event.
abbrev pub write_and_announce :
    BillingCall → License → List Column → String → String → BillingState → BillingState
write_and_announce call lic cols action event w =
    dispatched event lic (audited action lic (save call lic cols w))

abbrev pub canceled_now : ℕ → License → License
canceled_now now lic = record lic { status = canceled; canceled_at = some now; past_due_at = none }

abbrev pub canceled_columns : List Column
canceled_columns = status_column ∷ canceled_at_column ∷ past_due_at_column ∷ []

abbrev pub past_due_now : ℕ → License → License
past_due_now now lic = record lic { status = past_due; past_due_at = some now }

abbrev pub past_due_columns : List Column
past_due_columns = status_column ∷ past_due_at_column ∷ []

abbrev pub suspended_now : ℕ → License → License
suspended_now now lic = record lic { status = suspended; suspended_at = some now }

abbrev pub reinstated : License → License
reinstated lic = record lic { status = active; suspended_at = none }

abbrev pub suspended_columns : List Column
suspended_columns = status_column ∷ suspended_at_column ∷ []

abbrev pub cancel : BillingCall → License → BillingState → BillingState
cancel call lic w =
    write_and_announce call (canceled_now call.now lic) canceled_columns "canceled"
      "license.canceled" w

unfoldable pub on_subscription_deleted : BillingCall → String → BillingState → BillingState
unfolding update_license_and_subscription
on_subscription_deleted call id w = with_license call id (cancel call) w

abbrev pub fail_payment : BillingCall → License → BillingState → BillingState
fail_payment call lic w =
    if is_active lic.status
    then write_and_announce call (past_due_now call.now lic) past_due_columns "payment_failed"
        "license.payment_failed" w
    else w

unfoldable pub on_payment_failed : BillingCall → InvoiceEvent → BillingState → BillingState
unfolding update_license_and_subscription
on_payment_failed call invoice w = with_invoice call invoice (fail_payment call) w

abbrev pub pause : BillingCall → License → BillingState → BillingState
pause call lic w =
    write_and_announce call (suspended_now call.now lic) suspended_columns "suspended"
      "license.suspended" w

unfoldable pub on_subscription_paused : BillingCall → String → BillingState → BillingState
unfolding update_license_and_subscription
on_subscription_paused call id w = with_license call id (pause call) w

abbrev pub resume : BillingCall → License → BillingState → BillingState
resume call lic w =
    write_and_announce call (reinstated lic) suspended_columns "reinstated" "license.reinstated" w

unfoldable pub on_subscription_resumed : BillingCall → String → BillingState → BillingState
unfolding update_license_and_subscription
on_subscription_resumed call id w = with_license call id (resume call) w

unfoldable pub on_payment_action_required : BillingCall → InvoiceEvent → BillingState → BillingState
on_payment_action_required call invoice w =
    with_invoice call invoice
      (λ lic w. audited "payment_action_required" lic (mailed "payment_action_required" lic w)) w

unfoldable pub on_trial_will_end : BillingCall → String → BillingState → BillingState
on_trial_will_end call id w = with_license call id (λ lic w. mailed "trial_ending" lic w) w

unfoldable pub on_invoice_upcoming : BillingCall → InvoiceEvent → BillingState → BillingState
on_invoice_upcoming call invoice w =
    with_invoice call invoice (λ lic w. audited "invoice_upcoming" lic w) w

-- Statement 0 is the UPDATE of every license of the customer.
unfoldable pub on_customer_updated : BillingCall → String → String → BillingState → BillingState
on_customer_updated call id email w =
    if (not (id == "") && not (email == "")) && call.io 0
    then record w {
      licenses =
          update (λ (lic : License). lic.stripe_customer_id == id)
            (λ lic. record lic { email = email; updated_at = call.now }) w.licenses;
    }
    else w
