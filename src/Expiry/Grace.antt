-- ===== src/Expiry/Grace.antt =====
-- The checks of internal/service/expiry.go against the usability that internal/service/license.go
-- grants.
use saas_admin.Prelude.{
  ℕ, ◌+◌, ◌*◌, ◌≤◌, ◌<◌, String, ◌≡◌, refl, ap, ◌∙◌, Bool, true, false, ◌&&◌, Option, none, some,
  arith, if◌then◌else◌,
}
use saas_admin.Prelude.Table.{select}
use saas_admin.Model.{
  Status, active, trialing, past_due, canceled, expired, suspended, revoked, unknown, License, day,
}
use saas_admin.Licensing.Rules.{license_expired, grace_days, effective_grace_days, assert_usable}
use saas_admin.Expiry.{
  ExpiryState, ExpiryCall, has_id, paying, for_grace_expiry, grace_over, expired_trial,
  expire_grace_period_licenses, expire_trials,
}
use saas_admin.Expiry.Rows.{PrimaryKey, ends, select-check}

-- Whether the license service refuses the license.
abbrev pub refused : ℕ → License → Bool
refused now lic = elim (assert_usable now lic) [ none ↦ false | some e ↦ true ]

due_iff_refused :
    (now : ℕ) (lic : License) (s : Status) (v : Option ℕ)
    → lic.status ≡ s
    → lic.valid_until ≡ v
    → (for_grace_expiry now lic && grace_over now lic) ≡ (paying lic.status && refused now lic)
unfolding assert_usable effective_grace_days
due_iff_refused now lic active none e e' = rw (e, e', assert_usable) refl
due_iff_refused now lic active (some v) e e' =
    rw (e, e', assert_usable, effective_grace_days) (ground arith)
due_iff_refused now lic past_due none e e' = rw (e, e', assert_usable) refl
due_iff_refused now lic past_due (some v) e e' =
    rw (e, e', assert_usable, effective_grace_days) (ground arith)
due_iff_refused now lic trialing v e e' = rw e refl
due_iff_refused now lic canceled v e e' = rw e refl
due_iff_refused now lic expired v e e' = rw e refl
due_iff_refused now lic suspended v e e' = rw e refl
due_iff_refused now lic revoked v e e' = rw e refl
due_iff_refused now lic (unknown x) v e e' = rw e refl

-- The grace check, when its statements run, ends an active or past-due license exactly when the
-- license service refuses it at that time, and leaves every other license. It assumes the table's
-- primary key.
pub grace_check_exact :
    (call : ExpiryCall) (i : String) (w : ExpiryState) (lic : License)
    → call.finds ≡ true
    → ((id : String) → call.writes id ≡ true)
    → PrimaryKey w.licenses
    → select (has_id i) w.licenses ≡ some lic
    → select (has_id i) (expire_grace_period_licenses call w).licenses
      ≡ some (if paying lic.status && refused call.now lic then ends call lic else lic)
unfolding expire_grace_period_licenses
grace_check_exact call i w lic f a k h =
    rw (f, expire_grace_period_licenses)
      (select-check call true (grace_over call.now) (for_grace_expiry call.now) i w {lic = lic} a k
          h
        ∙ ap (λ b. some (if b then ends call lic else lic))
            (due_iff_refused call.now lic _ _ refl refl))

-- The trial check does not know the grace of a plan: a trial past its end and within its grace, which
-- the license service still accepts, is ended by the check when its statements run, and the row that it
-- leaves is refused as expired at every time. It assumes the primary key.
pub trial_grace_ignored :
    (call : ExpiryCall) (i : String) (w : ExpiryState) (lic : License) (v later : ℕ)
    → call.finds ≡ true
    → ((id : String) → call.writes id ≡ true)
    → PrimaryKey w.licenses
    → select (has_id i) w.licenses ≡ some lic
    → lic.status ≡ trialing
    → lic.valid_until ≡ some v
    → v < call.now
    → call.now ≤ v + grace_days lic * day
    → (assert_usable call.now lic ≡ none)
      × (select (has_id i) (expire_trials call w).licenses ≡ some (ends call lic))
      × (assert_usable later (ends call lic) ≡ some license_expired)
unfolding expire_trials assert_usable effective_grace_days
trial_grace_ignored call i w lic v later f a k h s u l l' =
    let due : expired_trial call.now lic ≡ true = rw (s, u) (ground (arith, l)) in
    (
      rw (assert_usable, s, u, effective_grace_days) (ground (arith, l')),
      rw (f, expire_trials)
          (select-check call true (λ x. true) (expired_trial call.now) i w {lic = lic} a k h
            ∙ ap (λ b. some (if b && true then ends call lic else lic)) due),
      refl,
    )
