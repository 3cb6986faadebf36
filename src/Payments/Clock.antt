-- ===== src/Payments/Clock.antt =====
-- The clock of a past-due episode (internal/payment/stripe.go), on which the reminders of
-- internal/service/expiry.go and the end of the license stand.
use saas_admin.Prelude.{
  ℕ, ◌*◌, ◌≤◌, String, ◌≡◌, refl, sym, ap, ◌∙◌, inl, inr, Bool, true, false, not, ◌&&◌, some, List,
  [], ◌∷◌, arith, ◌==◌, Bool-cases,
}
use mathlib.Core.Path.{subst}
use saas_admin.Prelude.Rows.{select-update}
use saas_admin.Prelude.Table.{select, count}
use saas_admin.Model.{License, second}
use saas_admin.Expiry.{has_id, is_past_due}
use saas_admin.Payments.{
  audited, mailed, BillingState, BillingCall, Column, status_column, copy_columns, save,
  by_subscription, episode_of,
}
use saas_admin.Payments.Subscriptions.{
  InvoiceEvent, SubscriptionEvent, subscription_id, on_invoice_paid, on_subscription_updated,
  on_subscription_deleted, on_payment_failed, on_subscription_paused, on_subscription_resumed,
  on_payment_action_required, on_trial_will_end, on_invoice_upcoming, on_customer_updated, paid,
  paid_columns, moved, prolonged, moved_columns, is_active, canceled_now, canceled_columns,
  past_due_now, past_due_columns, suspended_now, reinstated, suspended_columns, pay, follow, cancel,
  fail_payment, pause, resume,
}
use saas_admin.Payments.Cases.{with_license-cases, with_invoice-cases, save-cases}
use saas_admin.Payments.Refunds.{ChargeEvent, ChargeCall, revoke}
use saas_admin.Payments.Refunded.{Refunded, on_charge_refunded-Refunded}
use saas_admin.Payments.Fulfil.{on_async_payment_failed}
use saas_admin.Payments.Webhook.{
  StripeEvent, checkout_completed, async_payment_failed, invoice_paid, subscription_updated,
  subscription_deleted, payment_failed, charge_refunded, dispute_created, dispute_closed,
  payment_action_required, subscription_paused, subscription_resumed, trial_will_end,
  invoice_upcoming, customer_updated, unhandled, Delivery, handle,
}
use saas_admin.Payments.Overdue.{
  Clock, Since-followed, followed-id, active_not_past_due, Clock-same, Clock-written, Clock-ended,
  Clock-tell,
}

-- A license `lic` of the state that is past due since `t`, under primary keys.
module _ (i : String) (t : ℕ) (lic : License) (w : BillingState)
    (k : count (has_id i) w.licenses ≤ 1) (f : select (has_id i) w.licenses ≡ some lic)
    (p : is_past_due lic.status ≡ true) (a : lic.past_due_at ≡ some t) where
  same : Clock i t w.licenses
  same = Clock-same i t lic w.licenses k f p a

  since : (x : License) → x ≡ lic → x.past_due_at ≡ some t
  since x z = ap (λ (l : License). l.past_due_at) z ∙ a

  Clock-pay :
      (call : BillingCall) (e : InvoiceEvent) (x : License) → Clock i t (pay call e x w).licenses
  Clock-pay call e x =
      let lic' = paid (e.period_end * second) x in
      Clock-tell i t lic w.licenses k f p a call w lic' paid_columns (episode_of x)
        (is_past_due x.status) same
        (Clock-ended i t lic w.licenses k f p a call lic' paid_columns (λ y. refl))

  Clock-follow :
      (call : BillingCall) (e : SubscriptionEvent) (g : License → Bool) (x : License)
      → select g w.licenses ≡ some x
      → Clock i t (follow call e x w).licenses
  Clock-follow call e g x s =
      let lic' = prolonged e (moved call.now e.status x) in
      Clock-tell i t lic w.licenses k f p a call w lic' (moved_columns e) (episode_of x)
        (is_past_due x.status && is_active lic'.status) same
        (Clock-written i t lic w.licenses k f p a call g x lic' (moved_columns e) s
          (followed-id call.now e x) (λ z. Since-followed t call.now e x (since x z)))

  Clock-leave :
      (call : BillingCall) (lic' : License) (cols : List Column)
      → ((y : License) → is_past_due (copy_columns cols lic' y).status ≡ false)
      → Clock i t (save call lic' cols w).licenses
  Clock-leave call lic' cols c =
      save-cases (Clock i t) call lic' cols w same
        (Clock-ended i t lic w.licenses k f p a call lic' cols c)

  Clock-fail_payment :
      (call : BillingCall) (g : License → Bool) (x : License)
      → select g w.licenses ≡ some x
      → Clock i t (fail_payment call x w).licenses
  Clock-fail_payment call g x s = elim (Bool-cases (is_active x.status)) [
    | inr c ↦ rw c same
    | inl c ↦ rw c (
        save-cases (Clock i t) call (past_due_now call.now x) past_due_columns w same (
          Clock-written i t lic w.licenses k f p a call g x (past_due_now call.now x)
            past_due_columns s refl
            (λ z.
              absurd (
                active_not_past_due x.status c
                  (ap (λ (l : License). is_past_due l.status) z ∙ p)))))
  ]

  Clock-Refunded :
      (call : ChargeCall) (charge : ChargeEvent) (ls' : List License)
      → Refunded call charge w.licenses ls'
      → Clock i t ls'
  Clock-Refunded call charge ls' (inl q) = subst (Clock i t) (sym q) same
  Clock-Refunded call charge ls' (inr (x, q, r, e)) = subst (Clock i t) (sym e) (
      Clock-ended i t lic w.licenses k f p a call.billing (revoke x) (status_column ∷ [])
        (λ y. refl))

  Clock-renamed :
      (call : BillingCall) (id email : String)
      → Clock i t (on_customer_updated call id email w).licenses
  unfolding on_customer_updated
  Clock-renamed call id email =
      elim (Bool-cases ((not (id == "") && not (email == "")) && call.io 0)) [
        | inr e ↦ rw (on_customer_updated, e) same
        | inl e ↦
            let of_customer = λ (l : License). l.stripe_customer_id == id in
            let g' = λ (l : License). record l { email = email; updated_at = call.now } in
            let u = select-update (has_id i) of_customer g' w.licenses (λ l. refl) in
            rw (on_customer_updated, e)
              (λ r h x. elim (Bool-cases (of_customer lic)) [
                | inl c ↦
                    let q : g' lic ≡ r = ground (arith, u, f, h, c) in
                    subst (λ (l : License). l.past_due_at ≡ some t) q a
                | inr c ↦
                    let q : lic ≡ r = ground (arith, u, f, h, c) in
                    subst (λ (l : License). l.past_due_at ≡ some t) q a
              ])
      ]

-- The completion of a checkout, which adds licenses.
abbrev pub adds_license : StripeEvent → Bool
adds_license (checkout_completed s) = true
adds_license _ = false

-- The clock of an episode does not move: a license that is past due since `t` is, after any event but
-- the completion of a checkout, still past due since `t`, or not past due any more; so repeated
-- failures and updates do not put off the reminders. This holds whichever statements fail. It assumes
-- that the id is a primary key.
pub handle-Clock :
    (d : Delivery) (e : StripeEvent) (w : BillingState) (i : String) (t : ℕ) (lic : License)
    → count (has_id i) w.licenses ≤ 1
    → select (has_id i) w.licenses ≡ some lic
    → is_past_due lic.status ≡ true
    → lic.past_due_at ≡ some t
    → adds_license e ≡ false
    → Clock i t (handle d e w).0.licenses
unfolding handle on_async_payment_failed on_invoice_paid on_subscription_updated
    on_subscription_deleted on_payment_failed on_payment_action_required on_subscription_paused
    on_subscription_resumed on_trial_will_end on_invoice_upcoming
handle-Clock d (checkout_completed s) w i t lic k f p a n = absurd (cc)
handle-Clock d (async_payment_failed id) w i t lic k f p a n = elim (Bool-cases (id == "")) [
  | inl e ↦ rw (on_async_payment_failed, e) (same i t lic w k f p a)
  | inr e ↦ rw (on_async_payment_failed, e) (same i t lic w k f p a)
]
handle-Clock d (invoice_paid e) w i t lic k f p a n =
    with_invoice-cases (Clock i t) d.billing e (pay d.billing e) w (same i t lic w k f p a)
      (λ x s. Clock-pay i t lic w k f p a d.billing e x)
handle-Clock d (subscription_updated e) w i t lic k f p a n =
    with_license-cases (Clock i t) d.billing e.id (follow d.billing e) w (same i t lic w k f p a)
      (λ x s. Clock-follow i t lic w k f p a d.billing e (by_subscription e.id) x s)
handle-Clock d (subscription_deleted id) w i t lic k f p a n =
    with_license-cases (Clock i t) d.billing id (cancel d.billing) w (same i t lic w k f p a)
      (λ x s.
        Clock-leave i t lic w k f p a d.billing (canceled_now d.billing.now x) canceled_columns
          (λ y. refl))
handle-Clock d (payment_failed e) w i t lic k f p a n =
    with_invoice-cases (Clock i t) d.billing e (fail_payment d.billing) w (same i t lic w k f p a)
      (λ x s.
        Clock-fail_payment i t lic w k f p a d.billing (by_subscription (subscription_id e)) x s)
handle-Clock d (charge_refunded e) w i t lic k f p a n =
    Clock-Refunded i t lic w k f p a d.charge e _ (on_charge_refunded-Refunded d.charge e w)
handle-Clock d (dispute_created id) w i t lic k f p a n = same i t lic w k f p a
handle-Clock d (dispute_closed id) w i t lic k f p a n = same i t lic w k f p a
handle-Clock d (payment_action_required e) w i t lic k f p a n =
    with_invoice-cases (Clock i t) d.billing e
      (λ l w. audited "payment_action_required" l (mailed "payment_action_required" l w)) w
      (same i t lic w k f p a) (λ x s. same i t lic w k f p a)
handle-Clock d (subscription_paused id) w i t lic k f p a n =
    with_license-cases (Clock i t) d.billing id (pause d.billing) w (same i t lic w k f p a) (λ x s.
      Clock-leave i t lic w k f p a d.billing (suspended_now d.billing.now x) suspended_columns
        (λ y. refl))
handle-Clock d (subscription_resumed id) w i t lic k f p a n =
    with_license-cases (Clock i t) d.billing id (resume d.billing) w (same i t lic w k f p a)
      (λ x s. Clock-leave i t lic w k f p a d.billing (reinstated x) suspended_columns (λ y. refl))
handle-Clock d (trial_will_end id) w i t lic k f p a n =
    with_license-cases (Clock i t) d.billing id (mailed "trial_ending") w (same i t lic w k f p a)
      (λ x s. same i t lic w k f p a)
handle-Clock d (invoice_upcoming e) w i t lic k f p a n =
    with_invoice-cases (Clock i t) d.billing e (audited "invoice_upcoming") w
      (same i t lic w k f p a) (λ x s. same i t lic w k f p a)
handle-Clock d (customer_updated id email) w i t lic k f p a n =
    Clock-renamed i t lic w k f p a d.billing id email
handle-Clock d unhandled w i t lic k f p a n = same i t lic w k f p a
