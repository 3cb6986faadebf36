-- ===== src/Payments/Overdue.antt =====
-- The clocks of the past-due licenses of a table, under the writes of internal/payment/stripe.go.
use saas_admin.Prelude.{
  ℕ, ◌≤◌, String, ◌≡◌, refl, sym, ap, ◌∙◌, ◌≢◌, inl, inr, Bool, true, false, ◌||◌, some, List, [],
  ◌∷◌, arith, ◌==◌, eq_iff, ltb, Bool-cases,
}
use mathlib.Core.Path.{subst}
use saas_admin.Prelude.Rows.{select-update, select_of_found}
use saas_admin.Prelude.Table.{select-eq-some, select, count}
use saas_admin.Model.{
  Status, active, trialing, past_due, canceled, expired, suspended, revoked, unknown, License,
}
use saas_admin.Expiry.{has_id, is_past_due}
use saas_admin.Payments.{
  BillingState, BillingCall, Column, status_column, copy_columns, save, valid_until_column,
  canceled_at_column, past_due_at_column, suspended_at_column,
}
use saas_admin.Payments.Subscriptions.{
  SubscriptionEvent, moved, prolonged, moved_columns, is_active, write_and_tell, period_end_of,
}
use saas_admin.Payments.Cases.{written, save-cases, notify-cases}

copy_columns-id : (cols : List Column) (lic row : License) → (copy_columns cols lic row).id ≡ row.id
copy_columns-id [] lic row = refl
copy_columns-id (status_column ∷ cols) lic row = copy_columns-id cols lic row
copy_columns-id (valid_until_column ∷ cols) lic row = copy_columns-id cols lic row
copy_columns-id (canceled_at_column ∷ cols) lic row = copy_columns-id cols lic row
copy_columns-id (past_due_at_column ∷ cols) lic row = copy_columns-id cols lic row
copy_columns-id (suspended_at_column ∷ cols) lic row = copy_columns-id cols lic row

-- A license that is past due is so since `t`.
abbrev pub Since : ℕ → License → Type 0
Since t lic = is_past_due lic.status ≡ true → lic.past_due_at ≡ some t

-- The license with that id.
abbrev pub Clock : String → ℕ → List License → Type 0
Clock i t ls = (r : License) → select (has_id i) ls ≡ some r → Since t r

-- The status of an event does not move the start of the episode.
Since-moved :
    (t now : ℕ) (status : String) (x : License)
    → x.past_due_at ≡ some t
    → Since t (moved now status x)
Since-moved t now status x a = elim (Bool-cases (status == "active")) [
  | inl e ↦ rw e (λ h. absurd (cc))
  | inr e ↦ elim (Bool-cases (status == "past_due")) [
    | inl f ↦ rw (e, f, a) (λ h. refl)
    | inr f ↦ elim (Bool-cases (status == "trialing")) [
      | inl g ↦ rw (e, f, g) (λ h. absurd (cc))
      | inr g ↦ elim (Bool-cases ((status == "canceled") || (status == "unpaid"))) [
        | inl k ↦ rw (e, f, g, k) (λ h. absurd (cc))
        | inr k ↦ rw (e, f, g, k) (λ h. a)
      ]
    ]
  ]
]

pub Since-followed :
    (t now : ℕ) (e : SubscriptionEvent) (x : License)
    → x.past_due_at ≡ some t
    → Since t (copy_columns (moved_columns e) (prolonged e (moved now e.status x)) x)
Since-followed t now e x a = elim (Bool-cases (ltb 0 (period_end_of e))) [
  | inl f ↦ rw f (Since-moved t now e.status x a)
  | inr f ↦ rw f (Since-moved t now e.status x a)
]

pub followed-id :
    (now : ℕ) (e : SubscriptionEvent) (x : License) → (prolonged e (moved now e.status x)).id ≡ x.id
followed-id now e x = ground arith

pub active_not_past_due : (s : Status) → is_active s ≡ true → is_past_due s ≢ true
active_not_past_due active c h = absurd (cc)
active_not_past_due past_due c h = absurd (cc)
active_not_past_due trialing c h = absurd (cc)
active_not_past_due canceled c h = absurd (cc)
active_not_past_due expired c h = absurd (cc)
active_not_past_due suspended c h = absurd (cc)
active_not_past_due revoked c h = absurd (cc)
active_not_past_due (unknown text) c h = absurd (cc)

-- A license `lic` that is past due since `t`, under primary keys.
module _ (i : String) (t : ℕ) (lic : License) (ls : List License) (k : count (has_id i) ls ≤ 1)
    (f : select (has_id i) ls ≡ some lic) (p : is_past_due lic.status ≡ true)
    (a : lic.past_due_at ≡ some t) where
  pub Clock-same : Clock i t ls
  Clock-same r h =
      λ x. let q : lic ≡ r = ground (arith, f, h) in ap (λ (l : License). l.past_due_at) (sym q) ∙ a

  -- A write of a license that some query found.
  pub Clock-written :
      (call : BillingCall) (g : License → Bool) (x lic' : License) (cols : List Column)
      → select g ls ≡ some x
      → lic'.id ≡ x.id
      → (x ≡ lic → Since t (copy_columns cols lic' x))
      → Clock i t (written call lic' cols ls)
  Clock-written call g x lic' cols s n w r h =
      let g' = λ (row : License). record (copy_columns cols lic' row) { updated_at = call.now } in
      let u =
        select-update (has_id i) (has_id lic'.id) g' ls
          (λ row. ap (λ (z : String). z == i) (copy_columns-id cols lic' row)) in
      let m : (lic.id == i) ≡ true = select-eq-some (has_id i) ls {r = lic} f in
      elim (Bool-cases (has_id lic'.id lic)) [
        | inr e ↦ let q : lic ≡ r = ground (arith, u, f, h, e) in subst (Since t) q (λ x. a)
        | inl e ↦
            let y : has_id i x ≡ true = ground (arith, e, m, n, eq_iff lic.id lic'.id) in
            let z : x ≡ lic = ground (arith, select_of_found g (has_id i) ls {a = x} s y k, f) in
            let q : g' lic ≡ r = ground (arith, u, f, h, e) in
            subst (Since t) q (subst (λ v. Since t (copy_columns cols lic' v)) z (w z))
      ]

  -- A write that ends the episode, of whatever license.
  pub Clock-ended :
      (call : BillingCall) (lic' : License) (cols : List Column)
      → ((y : License) → is_past_due (copy_columns cols lic' y).status ≡ false)
      → Clock i t (written call lic' cols ls)
  Clock-ended call lic' cols c r h =
      let g' = λ (row : License). record (copy_columns cols lic' row) { updated_at = call.now } in
      let u =
        select-update (has_id i) (has_id lic'.id) g' ls
          (λ row. ap (λ (z : String). z == i) (copy_columns-id cols lic' row)) in
      elim (Bool-cases (has_id lic'.id lic)) [
        | inr e ↦ let q : lic ≡ r = ground (arith, u, f, h, e) in subst (Since t) q (λ x. a)
        | inl e ↦
            let q : g' lic ≡ r = ground (arith, u, f, h, e) in
            subst (Since t) q (λ x. absurd (ground (arith, c lic, x)))
      ]

  pub Clock-tell :
      (call : BillingCall) (w : BillingState) (lic' : License) (cols : List Column) (episode : ℕ)
      (b : Bool)
      → Clock i t w.licenses
      → Clock i t (written call lic' cols w.licenses)
      → Clock i t (write_and_tell call lic' cols episode b w).licenses
  Clock-tell call w lic' cols episode true s n =
      notify-cases (Clock i t) call lic' episode (save call lic' cols w)
        (save-cases (Clock i t) call lic' cols w s n)
  Clock-tell call w lic' cols episode false s n = save-cases (Clock i t) call lic' cols w s n
