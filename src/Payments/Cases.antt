-- ===== src/Payments/Cases.antt =====
-- When a handler of internal/payment/stripe.go changes the licenses, and to what.
use saas_admin.Prelude.{ℕ, String, ◌≡◌, inl, inr, some, List, ◌==◌, Bool-cases, Option-cases}
use saas_admin.Prelude.Table.{select, update}
use saas_admin.Model.{License}
use saas_admin.Expiry.{has_id}
use saas_admin.Payments.{
  BillingState, BillingCall, Column, copy_columns, update_license_and_subscription, save,
  by_subscription, with_license, notify_payment_recovered, has_notification, recovered_tag,
}
use saas_admin.Payments.Subscriptions.{InvoiceEvent, subscription_id, with_invoice}

-- The licenses after the write of a license.
abbrev pub written : BillingCall → License → List Column → List License → List License
written call lic cols t =
    update (has_id lic.id) (λ row. record (copy_columns cols lic row) { updated_at = call.now }) t

-- A property of the licenses, whatever else the handler changes.
module _ {κ} (P : List License → Type κ) (call : BillingCall) where
  pub with_license-cases :
      (id : String) (handle : License → BillingState → BillingState) (w : BillingState)
      → P w.licenses
      → ((lic : License)
          → select (by_subscription id) w.licenses ≡ some lic
          → P (handle lic w).licenses)
      → P (with_license call id handle w).licenses
  with_license-cases id handle w p h = elim (Bool-cases (call.io 0)) [
    | inr e ↦ rw e p
    | inl e ↦ elim (Option-cases (select (by_subscription id) w.licenses)) [
      | inl n ↦ rw (e, n) p
      | inr s ↦ rw (e, s.1) (h s.0 s.1)
    ]
  ]

  pub with_invoice-cases :
      (invoice : InvoiceEvent) (handle : License → BillingState → BillingState) (w : BillingState)
      → P w.licenses
      → ((lic : License)
          → select (by_subscription (subscription_id invoice)) w.licenses ≡ some lic
          → P (handle lic w).licenses)
      → P (with_invoice call invoice handle w).licenses
  with_invoice-cases invoice handle w p h = elim (Bool-cases (subscription_id invoice == "")) [
    | inl e ↦ rw e p
    | inr e ↦ rw e (with_license-cases (subscription_id invoice) handle w p h)
  ]

  pub save-cases :
      (lic : License) (cols : List Column) (w : BillingState)
      → P w.licenses
      → P (written call lic cols w.licenses)
      → P (save call lic cols w).licenses
  unfolding update_license_and_subscription
  save-cases lic cols w p h = elim (Bool-cases (call.io 1)) [
    | inr e ↦ rw (save, update_license_and_subscription, e) p
    | inl e ↦ rw (save, update_license_and_subscription, e) h
  ]

  pub notify-cases :
      (lic : License) (episode : ℕ) (w : BillingState)
      → P w.licenses
      → P (notify_payment_recovered call lic episode w).licenses
  unfolding notify_payment_recovered
  notify-cases lic episode w p =
      let tag = recovered_tag call episode in
      elim (Bool-cases (has_notification (call.io 2) lic.id tag w.notifications)) [
        | inl e ↦ rw (notify_payment_recovered, e) p
        | inr e ↦ rw (notify_payment_recovered, e) p
      ]
