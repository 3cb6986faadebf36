-- ===== src/Expiry.antt =====
-- The hourly lifecycle checks of internal/service/expiry.go that end licenses, with their statements
-- of internal/store/store.go. The log lines and the change sets of the audit rows are left out.
pub mod Rows
pub mod Grace
mod Tests
use saas_admin.Prelude.{
  ℕ, zero, suc, ◌+◌, ◌-◌, ◌*◌, ◌/◌, ◌%◌, ◌^◌, ◌≤◌, ◌<◌, min, max, String, ◌≡◌, refl, sym, ap, ◌∙◌,
  ◌≢◌, ◌↔◌, ◌⊎◌, inl, inr, Bool, true, false, not, ◌&&◌, ◌||◌, Option, none, some, List, [], ◌∷◌,
  ◌++◌, map, arith, ◌==◌, eq_iff, eq_refl, ltb, leb, nat_eq, if◌then◌else◌, ltb→lt, lt→ltb, leb→le,
  le→leb, Bool-cases, Option-cases, length, All,
}
use saas_admin.Prelude.Table.{update}
use saas_admin.Model.{Status, active, trialing, past_due, expired, License, AuditLog, Event, day}
use saas_admin.Licensing.Rules.{grace_days}

pub record Subscription : Type 0 where
  pub license_id : String
  pub status : Status

-- The tables, the audit rows, the webhook events and the addresses that were told of an end.
pub record ExpiryState : Type 0 where
  pub licenses : List License
  pub subscriptions : List Subscription
  pub audits : List AuditLog
  pub events : List Event
  pub mails : List String

-- `finds`: the query runs. `writes id`: the two statements of the transaction on that license run and it
-- commits. A failed one aborts it, also that on subscriptions, whose error is only logged.
pub record ExpiryCall : Type 0 where
  pub now : ℕ
  pub finds : Bool
  pub writes : String → Bool

-- The rows that a SELECT returns.
unfoldable pub rows_where : (License → Bool) → List License → List License
rows_where p [] = []
rows_where p (lic ∷ t) = let rest = rows_where p t in if p lic then lic ∷ rest else rest

abbrev pub has_id : String → License → Bool
has_id id lic = lic.id == id

abbrev pub with_status : ℕ → Status → License → License
with_status now status lic = record lic { status = status; updated_at = now }

-- The license's status and the time, and its subscription's status. `none` is an error.
unfoldable pub update_license_and_subscription :
    ExpiryCall → License → Status → ExpiryState → Option ExpiryState
update_license_and_subscription call lic status w =
    if call.writes lic.id
    then some (record w {
      licenses = update (has_id lic.id) (with_status call.now status) w.licenses;
      subscriptions =
          update (λ (s : Subscription). s.license_id == lic.id) (λ s. record s { status = status })
            w.subscriptions;
    })
    else none

-- What a check tells of an ended license: an audit row, and for two of them an event and a mail.
abbrev pub announce : Bool → License → ExpiryState → ExpiryState
announce tells lic w = record w {
  audits =
      record { entity = "license"; entity_id = lic.id; action = "expired"; actor_type = "system" }
      ∷ w.audits;
  events =
      if tells
      then record { product_id = lic.product_id; event = "license.expired"; license_id = lic.id }
        ∷ w.events
      else w.events;
  mails = if tells then lic.email ∷ w.mails else w.mails;
}

unfoldable pub expire : ExpiryCall → Bool → License → ExpiryState → ExpiryState
unfolding update_license_and_subscription
expire call tells lic w = elim (update_license_and_subscription call lic expired w) [
  | none ↦ w
  | some w' ↦ announce tells lic w'
]

-- The loop over the licenses that were found: those that are due are ended.
unfoldable pub expire_all :
    ExpiryCall → Bool → (License → Bool) → List License → ExpiryState → ExpiryState
unfolding expire
expire_all call tells due [] w = w
expire_all call tells due (lic ∷ found) w =
    expire_all call tells due found (if due lic then expire call tells lic w else w)

abbrev pub ended : ℕ → Option ℕ → Bool
ended now none = false
ended now (some t) = ltb t now

-- status IN ('active', 'past_due')
abbrev pub paying : Status → Bool
paying active = true
paying past_due = true
paying _ = false

abbrev pub is_trialing : Status → Bool
is_trialing trialing = true
is_trialing _ = false

abbrev pub is_past_due : Status → Bool
is_past_due past_due = true
is_past_due _ = false

-- FindLicensesForGraceExpiry
abbrev pub for_grace_expiry : ℕ → License → Bool
for_grace_expiry now lic = paying lic.status && ended now lic.valid_until

-- `time.Now().After(graceEnd)`
abbrev pub grace_over : ℕ → License → Bool
grace_over now lic = elim lic.valid_until [
  | none ↦ false
  | some t ↦ ltb (t + grace_days lic * day) now
]

unfoldable pub expire_grace_period_licenses : ExpiryCall → ExpiryState → ExpiryState
unfolding rows_where expire_all grace_days
expire_grace_period_licenses call w =
    if call.finds
    then expire_all call true (grace_over call.now)
        (rows_where (for_grace_expiry call.now) w.licenses) w
    else w

-- FindExpiredTrials
abbrev pub expired_trial : ℕ → License → Bool
expired_trial now lic = is_trialing lic.status && ended now lic.valid_until

unfoldable pub expire_trials : ExpiryCall → ExpiryState → ExpiryState
unfolding rows_where expire_all
expire_trials call w =
    if call.finds
    then expire_all call true (λ lic. true) (rows_where (expired_trial call.now) w.licenses) w
    else w

-- FindStalePastDueLicenses: COALESCE(past_due_at, updated_at) < before, for `before` 30 days ago.
abbrev pub stale_past_due : ℕ → License → Bool
stale_past_due now lic =
    is_past_due lic.status
    && ltb ((elim lic.past_due_at [ none ↦ lic.updated_at | some t ↦ t ]) + 30 * day) now

unfoldable pub mark_past_due_as_expired : ExpiryCall → ExpiryState → ExpiryState
unfolding rows_where expire_all
mark_past_due_as_expired call w =
    if call.finds
    then expire_all call false (λ lic. true) (rows_where (stale_past_due call.now) w.licenses) w
    else w
