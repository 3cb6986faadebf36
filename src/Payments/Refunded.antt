-- ===== src/Payments/Refunded.antt =====
-- Which license a refund takes away (internal/payment/stripe.go).
use saas_admin.Prelude.{
  String, ◌≡◌, refl, sym, ◌∙◌, ◌≢◌, ◌⊎◌, inl, inr, Bool, true, none, some, List, [], ◌∷◌, arith,
  ◌==◌, eq_iff, ltb, if◌then◌else◌, Bool-cases,
}
use mathlib.Core.Path.{subst}
use saas_admin.Prelude.Rows.{select_all}
use mathlib.Core.List.{Mem, mem-cons_self}
use saas_admin.Prelude.Members.{mem-select, mem-select_all}
use saas_admin.Prelude.Table.{select-eq-some, select}
use saas_admin.Model.{License}
use saas_admin.Payments.{
  BillingState, by_subscription, update_license_and_subscription, status_column,
}
use saas_admin.Payments.Cases.{written}
use saas_admin.Payments.Refunds.{
  ChargeEvent, ChargeCall, InvoiceAnswer, invoice_of, no_invoice, invoice_error, Charged,
  attributed, unattributed, lookup_error, charged, license_for_invoice, by_invoice, with_intent,
  of_customer, only_license, by_customer, by_payment, license_for_charge, revoke, refund,
  on_charge_refunded, is_revoked, or_next,
}

-- The license of an invoice's subscription.
abbrev pub Invoiced : InvoiceAnswer → License → Type 0
Invoiced answer lic =
    (id : String) × (answer ≡ invoice_of (some id)) × (by_subscription id lic ≡ true)

-- The charge paid for the license: a row that has the intent, or the subscription of one of the two
-- invoices, or that is the only license of the customer.
abbrev pub PaidFor : ChargeCall → ChargeEvent → List License → License → Type 0
PaidFor call charge t lic =
    Mem lic t
    × (((charge.payment_intent ≢ "") × (with_intent charge.payment_intent lic ≡ true))
        ⊎ (Invoiced call.invoice lic
            ⊎ (Invoiced call.payment lic
                ⊎ ((charge.customer ≢ "")
                    × (select_all (of_customer charge.customer) t ≡ lic ∷ [])))))

-- A lookup that names a license names one of that kind.
abbrev pub Names : (License → Type 0) → Charged → Type 0
Names P c = (lic : License) → c ≡ attributed lic → P lic

Names-charged :
    (runs : Bool) (p : License → Bool) (t : List License)
    → Names (λ lic. Mem lic t × (p lic ≡ true)) (charged runs (select p t))
Names-charged runs p t = λ lic h.
    let s : select p t ≡ some lic = ground (arith, h) in
    (mem-select p t {a = lic} s, select-eq-some p t {r = lic} s)

Names-by_invoice :
    (runs : Bool) (answer : InvoiceAnswer) (t : List License)
    → Names (λ lic. Mem lic t × Invoiced answer lic) (by_invoice runs answer t)
unfolding by_invoice license_for_invoice
Names-by_invoice runs (invoice_of none) t = λ lic h. absurd (cc)
Names-by_invoice runs (invoice_of (some id)) t =
    λ lic h. let n = Names-charged runs (by_subscription id) t lic h in (n.0, (id, refl, n.1))
Names-by_invoice runs no_invoice t = λ lic h. absurd (cc)
Names-by_invoice runs invoice_error t = λ lic h. absurd (cc)

Names-or_next :
    (P : License → Type 0) (c next : Charged) → Names P c → Names P next → Names P (or_next c next)
Names-or_next P (attributed lic) next n m = n
Names-or_next P unattributed next n m = m
Names-or_next P lookup_error next n m = λ lic h. absurd (cc)

-- A lookup that runs only if a text is not empty.
Names-guard :
    (P : License → Type 0) (text : String) (c : Charged)
    → (text ≢ "" → Names P c)
    → Names P (if text == "" then unattributed else c)
Names-guard P text c h = elim (Bool-cases (text == "")) [
  | inl e ↦ rw e (λ lic x. absurd (cc))
  | inr e ↦ rw e (h (λ x. ground (arith, e, eq_iff text "", x)))
]

PaidFor-by_payment :
    (call : ChargeCall) (charge : ChargeEvent) (t : List License)
    → Names (PaidFor call charge t) (by_payment call charge t)
unfolding by_payment
PaidFor-by_payment call charge t =
    let P = PaidFor call charge t in
    Names-or_next P _ _
      (Names-guard P charge.payment_intent _ (λ n lic h.
        let c = Names-charged (call.billing.io 4) (with_intent charge.payment_intent) t lic h in
        (c.0, inl (n, c.1))))
      (Names-or_next P _ _
        (Names-guard P charge.invoice _ (λ n lic h.
          let c = Names-by_invoice (call.billing.io 5) call.invoice t lic h in
          (c.0, inr (inl c.1))))
        (Names-guard P charge.payment_intent _ (λ n lic h.
          let c = Names-by_invoice (call.billing.io 6) call.payment t lic h in
          (c.0, inr (inr (inl c.1))))))

-- What the last lookup names, and that it leaves the licenses.
Looked : (License → Type 0) → List License → BillingState × Charged → Type 0
Looked P t out = (out.0.licenses ≡ t) × Names P out.1

Looked-only_license :
    (charge : ChargeEvent) (found : List License) (w : BillingState)
    → Looked (λ lic. found ≡ lic ∷ []) w.licenses (only_license charge found w)
unfolding Looked
Looked-only_license charge [] w = (refl, λ lic h. absurd (cc))
Looked-only_license charge (x ∷ []) w = (refl, λ lic h. cc)
Looked-only_license charge (x ∷ y ∷ rest) w = (refl, λ lic h. absurd (cc))

mem-singleton_row :
    (p : License → Bool) (t : List License) (lic : License) → select_all p t ≡ lic ∷ [] → Mem lic t
mem-singleton_row p t lic e =
    (mem-select_all p t {a = lic} (subst (Mem lic) (sym e) mem-cons_self)).0

PaidFor-license_for_charge :
    (call : ChargeCall) (charge : ChargeEvent) (w : BillingState) (c : Charged)
    → by_payment call charge w.licenses ≡ c
    → Looked (PaidFor call charge w.licenses) w.licenses (license_for_charge call charge w)
unfolding license_for_charge by_customer Looked
PaidFor-license_for_charge call charge w (attributed lic) e =
    rw (license_for_charge, e) (refl, λ x h. PaidFor-by_payment call charge w.licenses x (e ∙ h))
PaidFor-license_for_charge call charge w lookup_error e =
    rw (license_for_charge, e) (refl, λ x h. absurd (cc))
PaidFor-license_for_charge call charge w unattributed e =
    elim (Bool-cases (charge.customer == "")) [
      | inl c ↦ rw (license_for_charge, e, by_customer, c) (refl, λ x h. absurd (cc))
      | inr c ↦ elim (Bool-cases (call.billing.io 7)) [
        | inr r ↦ rw (license_for_charge, e, by_customer, c, r) (refl, λ x h. absurd (cc))
        | inl r ↦
            let found = select_all (of_customer charge.customer) w.licenses in
            let n : charge.customer ≢ "" = λ x. ground (arith, c, eq_iff charge.customer "", x) in
            let l = Looked-only_license charge found w in
            let only = mem-singleton_row (of_customer charge.customer) w.licenses in
            rw (license_for_charge, e, by_customer, c, r)
              (l.0, λ x h. (only x (l.1 x h), inr (inr (inr (n, l.1 x h)))))
      ]
    ]

-- What a refund event does to the licenses `t`.
abbrev pub Refunded : ChargeCall → ChargeEvent → List License → List License → Type 0
Refunded call charge t t' =
    (t' ≡ t)
    ⊎ ((lic : License) × PaidFor call charge t lic
        × (charge.refunded ≡ true)
        × (t' ≡ written call.billing (revoke lic) (status_column ∷ []) t))

Refunded-refund :
    (call : ChargeCall) (charge : ChargeEvent) (lic : License) (w : BillingState) (t : List License)
    → w.licenses ≡ t
    → PaidFor call charge t lic
    → Refunded call charge t (refund call charge lic w).0.licenses
unfolding refund update_license_and_subscription
Refunded-refund call charge lic w t q p = elim (Bool-cases charge.refunded) [
  | inr e ↦ elim (Bool-cases (ltb 0 charge.amount_refunded)) [
    | inl f ↦ inl (rw (refund, e, f) q)
    | inr f ↦ inl (rw (refund, e, f) q)
  ]
  | inl e ↦ elim (Bool-cases (is_revoked lic.status)) [
    | inl f ↦ inl (rw (refund, e, f) q)
    | inr f ↦ elim (Bool-cases (call.billing.io 1)) [
      | inr g ↦ inl (rw (refund, e, f, update_license_and_subscription, g) q)
      | inl g ↦ inr (lic, p, e, rw (refund, e, f, update_license_and_subscription, g) (rw q refl))
    ]
  ]
]

Refunded-answer :
    (call : ChargeCall) (charge : ChargeEvent) (w : BillingState) (c : Charged)
    → (license_for_charge call charge w).1 ≡ c
    → Looked (PaidFor call charge w.licenses) w.licenses (license_for_charge call charge w)
    → Refunded call charge w.licenses (on_charge_refunded call charge w).0.licenses
unfolding on_charge_refunded Looked
Refunded-answer call charge w unattributed e l = inl (rw (on_charge_refunded, e) l.0)
Refunded-answer call charge w lookup_error e l = inl (rw (on_charge_refunded, e) l.0)
Refunded-answer call charge w (attributed lic) e l =
    let w' = (license_for_charge call charge w).0 in
    let q : (refund call charge lic w').0.licenses ≡ (on_charge_refunded call charge w).0.licenses =
      rw (on_charge_refunded, e) refl in
    subst (Refunded call charge w.licenses) q
      (Refunded-refund call charge lic w' w.licenses l.0 (l.1 lic e))

-- A refund takes at most one license away, and only one that the charge paid for: either the licenses
-- stay, or the charge is fully refunded and a license of the table that has its payment intent, or the
-- subscription of its invoice or of the invoice of its payment, or is the only one of its customer, is
-- revoked. This holds whichever statements fail and whatever Stripe answers.
pub on_charge_refunded-Refunded :
    (call : ChargeCall) (charge : ChargeEvent) (w : BillingState)
    → Refunded call charge w.licenses (on_charge_refunded call charge w).0.licenses
on_charge_refunded-Refunded call charge w =
    Refunded-answer call charge w _ refl (PaidFor-license_for_charge call charge w _ refl)
