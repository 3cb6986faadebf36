-- ===== src/Expiry/Tests.antt =====
-- The theorems of the lifecycle checks at concrete data.
use saas_admin.Prelude.{
  ℕ, ◌+◌, ◌*◌, ◌≡◌, refl, true, ◌&&◌, none, some, [], ◌∷◌, arith, if◌then◌else◌,
}
use saas_admin.Prelude.Table.{select, count}
use saas_admin.Model.{trialing, License, day}
use saas_admin.Licensing.Rules.{license_expired, assert_usable, grace_days}
use saas_admin.Licensing.Sample.{license}
use saas_admin.Expiry.{ExpiryState, ExpiryCall, has_id, expire_grace_period_licenses, expire_trials}
use saas_admin.Expiry.Rows.{PrimaryKey, ends}
use saas_admin.Expiry.Grace.{refused, grace_check_exact, trial_grace_ignored}

abbrev state : License → ExpiryState
state lic = record { licenses = lic ∷ []; subscriptions = []; audits = []; events = []; mails = [] }

abbrev call : ℕ → ExpiryCall
call now = record { now = now; finds = true; writes = λ id. true }

-- A subscription and a trial that ended at 1000, with seven days of grace.
abbrev lapsed : License
lapsed = record license { valid_until = some 1000 }

abbrev trial : License
trial = record license { status = trialing; valid_until = some 1000 }

one-PrimaryKey : (lic : License) → PrimaryKey (lic ∷ [])
unfolding count
one-PrimaryKey lic id = ground arith

grace_check_exact_example :
    select
      (has_id "lic")
      (expire_grace_period_licenses (call (2000 + 7 * day)) (state lapsed)).licenses
    ≡ some (
        if true && refused (2000 + 7 * day) lapsed
        then ends (call (2000 + 7 * day)) lapsed
        else lapsed)
unfolding select
grace_check_exact_example =
    grace_check_exact (call (2000 + 7 * day)) "lic" (state lapsed) lapsed refl (λ id. refl)
      (one-PrimaryKey lapsed) refl

trial_grace_ignored_example :
    (assert_usable 2000 trial ≡ none)
    × (select (has_id "lic") (expire_trials (call 2000) (state trial)).licenses
        ≡ some (ends (call 2000) trial))
    × (assert_usable 9000 (ends (call 2000) trial) ≡ some license_expired)
unfolding select grace_days
trial_grace_ignored_example =
    trial_grace_ignored (call 2000) "lic" (state trial) trial 1000 9000 refl (λ id. refl)
      (one-PrimaryKey trial) refl refl refl (omega arith) (omega arith)
