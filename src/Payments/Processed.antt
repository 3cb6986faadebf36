-- ===== src/Payments/Processed.antt =====
-- What the handlers of internal/payment/stripe.go leave of the claims of events.
use saas_admin.Prelude.{
  ℕ, ◌*◌, String, ◌≡◌, refl, ◌∙◌, inl, inr, Bool, true, false, not, ◌&&◌, List, [], ◌∷◌, ◌==◌, ltb,
  Bool-cases, Option-cases,
}
use saas_admin.Prelude.Table.{select}
use saas_admin.Model.{second, License}
use saas_admin.Payments.{
  audited, mailed, BillingState, BillingCall, Column, update_license_and_subscription, save,
  by_subscription, with_license, episode_of, notify_payment_recovered, has_notification,
  recovered_tag,
}
use saas_admin.Payments.Subscriptions.{
  canceled_now, canceled_columns, past_due_now, past_due_columns, suspended_now, reinstated,
  suspended_columns, write_and_tell, pay, follow, cancel, fail_payment, pause, resume, InvoiceEvent,
  SubscriptionEvent, subscription_id, with_invoice, on_invoice_paid, on_subscription_updated,
  on_subscription_deleted, on_payment_failed, on_subscription_paused, on_subscription_resumed,
  on_payment_action_required, on_trial_will_end, on_invoice_upcoming, on_customer_updated, paid,
  paid_columns, moved, prolonged, moved_columns, is_active,
}
use saas_admin.Payments.Refunds.{
  ChargeEvent, ChargeCall, Charged, attributed, unattributed, lookup_error, by_payment, by_customer,
  only_license, license_for_charge, refund, on_charge_refunded, is_revoked,
}
use saas_admin.Expiry.{is_past_due}

-- A handler that leaves the claims.
abbrev pub Same : BillingState → BillingState → Type 0
Same w w' = w'.processed ≡ w.processed

module _ (call : BillingCall) (w : BillingState) where
  pub Same-with_license :
      (id : String) (f : License → BillingState → BillingState)
      → ((lic : License) → Same w (f lic w))
      → Same w (with_license call id f w)
  Same-with_license id f h = elim (Bool-cases (call.io 0)) [
    | inr e ↦ rw e refl
    | inl e ↦ elim (Option-cases (select (by_subscription id) w.licenses)) [
      | inl n ↦ rw (e, n) refl
      | inr s ↦ rw (e, s.1) (h s.0)
    ]
  ]

  pub Same-with_invoice :
      (e : InvoiceEvent) (f : License → BillingState → BillingState)
      → ((lic : License) → Same w (f lic w))
      → Same w (with_invoice call e f w)
  Same-with_invoice e f h = elim (Bool-cases (subscription_id e == "")) [
    | inl x ↦ rw x refl
    | inr x ↦ rw x (Same-with_license (subscription_id e) f h)
  ]

  pub Same-save : (lic : License) (cols : List Column) → Same w (save call lic cols w)
  unfolding update_license_and_subscription
  Same-save lic cols = elim (Bool-cases (call.io 1)) [
    | inl e ↦ rw (save, update_license_and_subscription, e) refl
    | inr e ↦ rw (save, update_license_and_subscription, e) refl
  ]

  pub Same-notify :
      (lic : License) (episode : ℕ) → Same w (notify_payment_recovered call lic episode w)
  unfolding notify_payment_recovered
  Same-notify lic episode =
      let tag = recovered_tag call episode in
      elim (Bool-cases (has_notification (call.io 2) lic.id tag w.notifications)) [
        | inl e ↦ rw (notify_payment_recovered, e) refl
        | inr e ↦ rw (notify_payment_recovered, e) refl
      ]

module _ (call : BillingCall) (w : BillingState) where
  pub Same-tell :
      (lic : License) (cols : List Column) (episode : ℕ) (b : Bool)
      → Same w (write_and_tell call lic cols episode b w)
  Same-tell lic cols episode true =
      Same-notify call (save call lic cols w) lic episode ∙ Same-save call w lic cols
  Same-tell lic cols episode false = Same-save call w lic cols

  pub Same-on_invoice_paid : (e : InvoiceEvent) → Same w (on_invoice_paid call e w)
  unfolding on_invoice_paid
  Same-on_invoice_paid e = Same-with_invoice call w e (pay call e) (λ lic.
      Same-tell (paid (e.period_end * second) lic) paid_columns (episode_of lic)
        (is_past_due lic.status))

  pub Same-on_subscription_updated :
      (e : SubscriptionEvent) → Same w (on_subscription_updated call e w)
  unfolding on_subscription_updated
  Same-on_subscription_updated e = Same-with_license call w e.id (follow call e) λ lic.
      let lic' = prolonged e (moved call.now e.status lic) in
      Same-tell lic' (moved_columns e) (episode_of lic)
        (is_past_due lic.status && is_active lic'.status)

  pub Same-on_subscription_deleted : (id : String) → Same w (on_subscription_deleted call id w)
  unfolding on_subscription_deleted
  Same-on_subscription_deleted id =
      Same-with_license call w id (cancel call)
        (λ lic. Same-save call w (canceled_now call.now lic) canceled_columns)

  pub Same-on_payment_failed : (e : InvoiceEvent) → Same w (on_payment_failed call e w)
  unfolding on_payment_failed
  Same-on_payment_failed e = Same-with_invoice call w e (fail_payment call) λ lic.
      elim (Bool-cases (is_active lic.status)) [
        | inl x ↦ rw x (Same-save call w (past_due_now call.now lic) past_due_columns)
        | inr x ↦ rw x refl
      ]

  pub Same-on_subscription_paused : (id : String) → Same w (on_subscription_paused call id w)
  unfolding on_subscription_paused
  Same-on_subscription_paused id =
      Same-with_license call w id (pause call)
        (λ lic. Same-save call w (suspended_now call.now lic) suspended_columns)

  pub Same-on_subscription_resumed : (id : String) → Same w (on_subscription_resumed call id w)
  unfolding on_subscription_resumed
  Same-on_subscription_resumed id =
      Same-with_license call w id (resume call)
        (λ lic. Same-save call w (reinstated lic) suspended_columns)

  pub Same-on_customer_updated : (id email : String) → Same w (on_customer_updated call id email w)
  unfolding on_customer_updated
  Same-on_customer_updated id email =
      elim (Bool-cases ((not (id == "") && not (email == "")) && call.io 0)) [
        | inl e ↦ rw (on_customer_updated, e) refl
        | inr e ↦ rw (on_customer_updated, e) refl
      ]

  pub Same-quiet :
      (e : InvoiceEvent) (id : String)
      → Same w (on_payment_action_required call e w)
        × Same w (on_trial_will_end call id w)
        × Same w (on_invoice_upcoming call e w)
  unfolding on_payment_action_required on_trial_will_end on_invoice_upcoming
  Same-quiet e id = (
    Same-with_invoice call w e
        (λ lic w. audited "payment_action_required" lic (mailed "payment_action_required" lic w))
        (λ lic. refl),
    Same-with_license call w id (mailed "trial_ending") (λ lic. refl),
    Same-with_invoice call w e (audited "invoice_upcoming") (λ lic. refl),
  )

pub Same-only_license :
    (charge : ChargeEvent) (found : List License) (w : BillingState)
    → Same w (only_license charge found w).0
Same-only_license charge [] w = refl
Same-only_license charge (x ∷ []) w = refl
Same-only_license charge (x ∷ y ∷ rest) w = refl

pub Same-license_for_charge :
    (call : ChargeCall) (charge : ChargeEvent) (w : BillingState) (c : Charged)
    → by_payment call charge w.licenses ≡ c
    → Same w (license_for_charge call charge w).0
unfolding license_for_charge by_customer
Same-license_for_charge call charge w (attributed lic) e = rw (license_for_charge, e) refl
Same-license_for_charge call charge w lookup_error e = rw (license_for_charge, e) refl
Same-license_for_charge call charge w unattributed e = elim (Bool-cases (charge.customer == "")) [
  | inl c ↦ rw (license_for_charge, e, by_customer, c) refl
  | inr c ↦ elim (Bool-cases (call.billing.io 7)) [
    | inr r ↦ rw (license_for_charge, e, by_customer, c, r) refl
    | inl r ↦ rw (license_for_charge, e, by_customer, c, r) (Same-only_license charge _ w)
  ]
]

pub Same-refund :
    (call : ChargeCall) (charge : ChargeEvent) (lic : License) (w : BillingState)
    → Same w (refund call charge lic w).0
unfolding refund update_license_and_subscription
Same-refund call charge lic w = elim (Bool-cases charge.refunded) [
  | inr e ↦ elim (Bool-cases (ltb 0 charge.amount_refunded)) [
    | inl f ↦ rw (refund, e, f) refl
    | inr f ↦ rw (refund, e, f) refl
  ]
  | inl e ↦ elim (Bool-cases (is_revoked lic.status)) [
    | inl f ↦ rw (refund, e, f) refl
    | inr f ↦ elim (Bool-cases (call.billing.io 1)) [
      | inr g ↦ rw (refund, e, f, update_license_and_subscription, g) refl
      | inl g ↦ rw (refund, e, f, update_license_and_subscription, g) refl
    ]
  ]
]

pub Same-on_charge_refunded :
    (call : ChargeCall) (charge : ChargeEvent) (w : BillingState) (c : Charged)
    → (license_for_charge call charge w).1 ≡ c
    → Same w (on_charge_refunded call charge w).0
unfolding on_charge_refunded
Same-on_charge_refunded call charge w (attributed lic) e =
    let w' = (license_for_charge call charge w).0 in
    let s = Same-license_for_charge call charge w _ refl in
    rw (on_charge_refunded, e) (Same-refund call charge lic w' ∙ s)
Same-on_charge_refunded call charge w unattributed e =
    rw (on_charge_refunded, e) (Same-license_for_charge call charge w _ refl)
Same-on_charge_refunded call charge w lookup_error e =
    rw (on_charge_refunded, e) (Same-license_for_charge call charge w _ refl)
