-- ===== src/Usage/Service.antt =====
-- The service of metered features: RecordUsage and GetQuotaStatus of internal/service/usage.go, with
-- InsertMeteredEvent of internal/store/metered.go.
use saas_admin.Prelude.{ℕ, ◌+◌, String, true, not, ◌&&◌, none, some, [], ◌∷◌, ◌==◌, if◌then◌else◌}
use Prim.Native.String.{◌++◌ as concat}
use saas_admin.Prelude.Table.{select}
use saas_admin.Apperr.{Result, ok, err, new, internal, with_details, number, words, not_found}
use saas_admin.Database.{Found, found, query, db_error}
use saas_admin.Model.{License, Entitlement}
use saas_admin.Licensing.Sdk.{load_license_for_sdk}
use saas_admin.Usage.Number.{parse_int64}
use saas_admin.Usage.{
  remaining, MeteredBilling, RecordUsageInput, RecordUsageResult, UsageCall, UsageCounter, UsageEnv,
  UsageEvent, UsageState, accepted, counter_key, crosses, current_period_key, effective_quantity,
  has_key, increment_usage_counter_with_limit, not_counted, quantity_too_large, quota_of, refused,
  warned,
}

-- What follows a committed increment. A failed insert of the event (statement 7) or of the meter row
-- (8) is only logged.
unfoldable pub after_increment :
    UsageEnv
    → UsageCall
    → RecordUsageInput
    → License
    → Entitlement
    → ℕ
    → ℕ
    → UsageState
    → UsageState
after_increment env call input lic quota quantity used w =
    let limit = parse_int64 quota.value in
    let key = counter_key env call.now lic input.feature quota in
    let event : UsageEvent = record {
      license_id = lic.id;
      feature = input.feature;
      quantity = quantity;
      ip_address = input.ip_address;
    } in
    let meter : MeteredBilling = record {
      license_id = lic.id;
      feature = input.feature;
      period_key = key.period_key;
      quantity = quantity;
    } in
    let fires = crosses env limit quantity used in
    record w {
      usage_events = if call.io 7 then event ∷ w.usage_events else w.usage_events;
      metered =
          if not (quota.stripe_meter_event_name == "") && call.io 8
          then meter ∷ w.metered
          else w.metered;
      warnings = if fires then warned lic input.feature limit used ∷ w.warnings else w.warnings;
      mails =
          if fires && env.mail_configured && not (lic.email == "")
          then warned lic input.feature limit used ∷ w.mails
          else w.mails;
    }

-- Statements 2 to 6 are the transaction.
unfoldable pub record_located :
    UsageEnv
    → UsageCall
    → RecordUsageInput
    → License
    → Entitlement
    → UsageState
    → UsageState × Result RecordUsageResult
unfolding increment_usage_counter_with_limit after_increment current_period_key parse_int64
record_located env call input lic quota w =
    let quantity = effective_quantity input.quantity in
    let limit = parse_int64 quota.value in
    let key = counter_key env call.now lic input.feature quota in
    elim (increment_usage_counter_with_limit (λ n. call.io (2 + n)) call.new_id key quantity limit
      w.counters) [
        | quantity_too_large ↦ (w, err (new 400 "INVALID_INPUT" "quantity too large"))
        | not_counted ↦ (w, err (internal db_error))
        | refused used t ↦ (
          record w { counters = t; exceeded = warned lic input.feature limit used ∷ w.exceeded },
          err (
              with_details
                (new 429 "QUOTA_EXCEEDED" (concat "usage quota exceeded for " input.feature))
                (("used", number used)
                  ∷ ("limit", number limit)
                  ∷ ("period", words key.period)
                  ∷ [])),
        )
        | accepted used t ↦ (
          after_increment env call input lic quota quantity used (record w { counters = t }),
          ok (record {
            used = used;
            limit = limit;
            remaining = remaining limit used;
            period = key.period;
            period_key = key.period_key;
          }),
        )
      ]

unfoldable pub record_usage :
    UsageEnv → UsageCall → RecordUsageInput → UsageState → UsageState × Result RecordUsageResult
unfolding load_license_for_sdk record_located
record_usage env call input w =
    elim (load_license_for_sdk call.now call.io call.crypto input.license_key input.product_id none
      true w.licenses) [
        | err e ↦ (w, err e)
        | ok lic ↦ elim (quota_of input.feature lic) [
          | none ↦ (
            w,
            err (
                new 400 "NO_QUOTA"
                  (concat "no quota entitlement found for feature: " input.feature)),
          )
          | some quota ↦ record_located env call input lic quota w
        ]
      ]

abbrev pub read_used : Found UsageCounter → ℕ
read_used (found c) = c.used
read_used _ = 0

-- The fields but the feature; statement 2 reads the counter, and its failure reads as no use.
unfoldable pub get_quota_status :
    UsageEnv → UsageCall → String → String → String → UsageState → Result RecordUsageResult
unfolding load_license_for_sdk current_period_key parse_int64
get_quota_status env call license_key feature product_id w =
    elim (load_license_for_sdk call.now call.io call.crypto license_key product_id none true
      w.licenses) [
        | err e ↦ err e
        | ok lic ↦ elim (quota_of feature lic) [
          | none ↦ err (not_found "QUOTA" feature)
          | some quota ↦
              let limit = parse_int64 quota.value in
              let key = counter_key env call.now lic feature quota in
              let used = read_used (query (call.io 2) (select (has_key key) w.counters)) in
              ok (record {
                used = used;
                limit = limit;
                remaining = remaining limit used;
                period = key.period;
                period_key = key.period_key;
              })
        ]
      ]
