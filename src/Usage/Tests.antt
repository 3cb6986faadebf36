-- ===== src/Usage/Tests.antt =====
-- Tests of the usage counters, and their theorems at concrete data.
use saas_admin.Prelude.{ℕ, ◌-◌, ◌*◌, ◌^◌, String, ◌≡◌, refl, true, some, [], ◌∷◌, arith, leb}
use saas_admin.Licensing.Sdk.{load_license_for_sdk}
use saas_admin.Prelude.Table.{select}
use saas_admin.Database.{healthy}
use saas_admin.Model.{License, Entitlement}
use saas_admin.Licensing.Sample.{license, plan, crypto}
use saas_admin.Usage.Number.{parse_int64, parse_digits, positive_int64}
use saas_admin.Usage.{
  CounterKey, UsageEnv, UsageCall, UsageState, RecordUsageInput, current_period_key,
}
use saas_admin.Usage.Service.{record_usage}
use saas_admin.Usage.Counter.{used_at}
use saas_admin.Usage.Quota.{WithinQuota, record_usage-WithinQuota}

parse_plain : parse_int64 "1000" ≡ 1000
unfolding parse_int64 parse_digits
parse_plain = refl

parse_grouped : parse_int64 "1,000" ≡ 0
unfolding parse_int64 parse_digits
parse_grouped = refl

parse_large : parse_int64 "99999999999999999999" ≡ 2 ^ 63 - 1
unfolding parse_int64 parse_digits
parse_large = refl

abbrev quota : String → Entitlement
quota value = record {
  feature = "calls";
  value_type = "quota";
  value = value;
  quota_period = "";
  stripe_meter_event_name = "meter";
}

abbrev with_quota : String → License
with_quota value = record license { plan = some (record plan { entitlements = quota value ∷ [] }) }

abbrev env : UsageEnv
env = record {
  format = λ layout now. layout;
  year = λ now. "";
  threshold_on = true;
  reaches = λ used limit. leb (limit * 8) (used * 10);
  mail_configured = true;
}

abbrev call : UsageCall
call = record { now = 100; io = healthy; new_id = "c1"; crypto = crypto }

abbrev unused : String → UsageState
unused value = record {
  licenses = with_quota value ∷ [];
  counters = [];
  usage_events = [];
  metered = [];
  exceeded = [];
  warnings = [];
  mails = [];
}

abbrev use_of : ℕ → RecordUsageInput
use_of quantity = record {
  license_key = "KEY";
  feature = "calls";
  quantity = quantity;
  product_id = "prod";
  ip_address = "";
}

abbrev key : CounterKey
key = record { license_id = "lic"; feature = "calls"; period = "monthly"; period_key = "2006-01" }

record_usage-WithinQuota_example :
    WithinQuota key key 3 10
      (unused "10")
      (record_usage env call (use_of 3) (unused "10")).0
      (record_usage env call (use_of 3) (unused "10")).1
unfolding used_at select load_license_for_sdk positive_int64 parse_int64 current_period_key
record_usage-WithinQuota_example =
    record_usage-WithinQuota env call (use_of 3) (unused "10") (with_quota "10") (quota "10") key
      refl refl (omega arith)
