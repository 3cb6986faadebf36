-- ===== src/Usage/Quota.antt =====
-- The quota over requests to internal/service/usage.go, `RecordUsage`.
use saas_admin.Prelude.{ℕ, ◌+◌, ◌≤◌, ◌≡◌, refl, ◌≢◌, true, none, some}
use saas_admin.Apperr.{Result, ok, err}
use saas_admin.Model.{License, Entitlement}
use saas_admin.Licensing.Sdk.{load_license_for_sdk}
use saas_admin.Usage.Number.{positive_int64, parse_int64}
use saas_admin.Usage.{
  CounterKey, UsageEnv, UsageCall, UsageState, RecordUsageInput, RecordUsageResult,
  IncrementOutcome, accepted, refused, quantity_too_large, not_counted,
  increment_usage_counter_with_limit, max_int64, effective_quantity, counter_key, quota_of,
}
use saas_admin.Usage.Service.{after_increment, record_located, record_usage}
use saas_admin.Usage.Counter.{used_at, Increment, increment_lem}

abbrev pub WithinQuota :
    CounterKey → CounterKey → ℕ → ℕ → UsageState → UsageState → Result RecordUsageResult → Type 0
WithinQuota k j q limit w w' (err e) =
    (used_at j w'.counters ≡ used_at j w.counters)
    × (w'.usage_events ≡ w.usage_events)
    × (w'.metered ≡ w.metered)
WithinQuota k j q limit w w' (ok r) =
    (r.used ≡ used_at k w.counters + q)
    × (r.limit ≡ limit)
    × (positive_int64 limit ≡ true → r.used ≤ limit)
    × (used_at k w'.counters ≡ r.used)
    × (k ≢ j → used_at j w'.counters ≡ used_at j w.counters)

located_by :
    (env : UsageEnv) (call : UsageCall) (input : RecordUsageInput) (lic : License)
    (quota : Entitlement) (w : UsageState) (j : CounterKey) (o : IncrementOutcome)
    → let k = counter_key env call.now lic input.feature quota in
      let q = effective_quantity input.quantity in
      let limit = parse_int64 quota.value in
      increment_usage_counter_with_limit (λ n. call.io (2 + n)) call.new_id k q limit w.counters ≡ o
      → Increment j k q limit w.counters o
      → let out = record_located env call input lic quota w in WithinQuota k j q limit w out.0 out.1
unfolding record_located after_increment
located_by env call input lic quota w j quantity_too_large e i =
    rw (e, record_located) (refl, refl, refl)
located_by env call input lic quota w j not_counted e i = rw (e, record_located) (refl, refl, refl)
located_by env call input lic quota w j (refused used t) e i =
    rw (e, record_located) (i.3, refl, refl)
located_by env call input lic quota w j (accepted used t) e i =
    rw (e, record_located, after_increment) (i.0, refl, i.2, i.3, i.4)

-- A request that found a license and its quota, with the counter within int64, ends in one of two
-- ways. With success: the reply shows the old value plus the quantity (1 for one that is not
-- positive), which is within the limit if that is positive, the counter stands at it, and no other
-- counter moved. With an error: no counter moved, and no usage event and no meter row was written.
pub record_usage-WithinQuota :
    (env : UsageEnv) (call : UsageCall) (input : RecordUsageInput) (w : UsageState) (lic : License)
    (quota : Entitlement) (j : CounterKey)
    → load_license_for_sdk call.now call.io call.crypto input.license_key input.product_id none true
        w.licenses
      ≡ ok lic
    → quota_of input.feature lic ≡ some quota
    → used_at (counter_key env call.now lic input.feature quota) w.counters ≤ max_int64
    → WithinQuota
        (counter_key env call.now lic input.feature quota)
        j
        (effective_quantity input.quantity)
        (parse_int64 quota.value)
        w
        (record_usage env call input w).0
        (record_usage env call input w).1
unfolding record_usage
record_usage-WithinQuota env call input w lic quota j e s l =
    let k = counter_key env call.now lic input.feature quota in
    rw (e, record_usage, s)
      (located_by env call input lic quota w j _ refl (
        increment_lem (λ n. call.io (2 + n)) call.new_id k j (effective_quantity input.quantity)
          (parse_int64 quota.value) w.counters l))

-- The reply of a request that was counted in full, and that told nobody of an exceeded quota.
abbrev pub Counted : ℕ → UsageState → UsageState × Result RecordUsageResult → Type 0
Counted used w out =
    ((r : RecordUsageResult) × (out.1 ≡ ok r) × (r.used ≡ used)) × (out.0.exceeded ≡ w.exceeded)
