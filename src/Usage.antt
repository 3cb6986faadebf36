-- ===== src/Usage.antt =====
-- Metered features: the counters of internal/store/usage.go and what internal/service/usage.go computes
-- from them. An int64 that may be negative is its bit pattern.
pub mod Service
pub mod Number
pub mod Counter
pub mod Quota
pub mod Warning
mod Tests
use saas_admin.Prelude.{
  ℕ, zero, suc, ◌+◌, ◌-◌, ◌*◌, ◌/◌, ◌%◌, ◌^◌, ◌≤◌, ◌<◌, min, max, String, ◌≡◌, refl, sym, ap, ◌∙◌,
  ◌≢◌, ◌↔◌, ◌⊎◌, inl, inr, Bool, true, false, not, ◌&&◌, ◌||◌, Option, none, some, List, [], ◌∷◌,
  ◌++◌, map, arith, ◌==◌, eq_iff, eq_refl, ltb, leb, nat_eq, if◌then◌else◌, ltb→lt, lt→ltb, leb→le,
  le→leb, Bool-cases, Option-cases, length, All,
}
use Prim.Native.String.{◌++◌ as concat}
use saas_admin.Prelude.Table.{select, update}
use saas_admin.Apperr.{Result, ok, err, new, internal, with_details, number, words, not_found}
use saas_admin.Database.{Io, Found, found, query, db_error}
use saas_admin.Model.{License, Entitlement, Event}
use saas_admin.Licensing.Token.{Crypto}
use saas_admin.Licensing.Sdk.{load_license_for_sdk}
use saas_admin.Usage.Number.{parse_int64, positive_int64, minus_one, sub_int64}

pub record UsageCounter : Type 0 where
  pub id : String
  pub license_id : String
  pub feature : String
  pub period : String
  pub period_key : String
  pub used : ℕ

pub record UsageEvent : Type 0 where
  pub license_id : String
  pub feature : String
  pub quantity : ℕ
  pub ip_address : String

pub record MeteredBilling : Type 0 where
  pub license_id : String
  pub feature : String
  pub period_key : String
  pub quantity : ℕ

-- The columns of the unique constraint of the counters.
pub record CounterKey : Type 0 where
  pub license_id : String
  pub feature : String
  pub period : String
  pub period_key : String

abbrev pub has_key : CounterKey → UsageCounter → Bool
has_key k c =
    c.license_id == k.license_id
    && c.feature == k.feature
    && c.period == k.period
    && c.period_key == k.period_key

abbrev pub fresh_counter : String → CounterKey → UsageCounter
fresh_counter id k = record {
  id = id;
  license_id = k.license_id;
  feature = k.feature;
  period = k.period;
  period_key = k.period_key;
  used = 0;
}

-- INSERT … ON CONFLICT DO NOTHING
abbrev pub insert_counter : String → CounterKey → List UsageCounter → List UsageCounter
insert_counter id k t = elim (select (has_key k) t) [ none ↦ fresh_counter id k ∷ t | some c ↦ t ]

abbrev pub max_int64 : ℕ
max_int64 = 2 ^ 63 - 1

pub data IncrementOutcome : Type 0 where
  -- the counter's value and the table
  accepted : ℕ → List UsageCounter → IncrementOutcome
  refused : ℕ → List UsageCounter → IncrementOutcome
  quantity_too_large : IncrementOutcome
  not_counted : IncrementOutcome

-- `used = used + ?`: the sum is within the BIGINT, since it is checked before.
abbrev pub add_used : ℕ → UsageCounter → UsageCounter
add_used quantity c = record c { used = c.used + quantity }

-- The locked row holds `current`; statement 3 commits a refusal, or updates before 4 commits.
unfoldable pub increment_from : Io → CounterKey → ℕ → ℕ → ℕ → List UsageCounter → IncrementOutcome
unfolding positive_int64
increment_from io k quantity limit current t =
    if ltb (max_int64 - current) quantity
    then quantity_too_large
    else if positive_int64 limit && ltb limit (current + quantity)
    then if io 3 then refused current t else not_counted
    else if io 3 && io 4
    then accepted (current + quantity) (update (has_key k) (add_used quantity) t)
    else not_counted

-- Statement 0 begins, 1 inserts the row if it is not there, 2 reads and locks it.
unfoldable pub increment_usage_counter_with_limit :
    Io → String → CounterKey → ℕ → ℕ → List UsageCounter → IncrementOutcome
unfolding increment_from
increment_usage_counter_with_limit io id k quantity limit t =
    if io 0 && io 1
    then elim (query (io 2) (select (has_key k) (insert_counter id k t))) [
      | found c ↦ increment_from io k quantity limit c.used (insert_counter id k t)
      | _ ↦ not_counted
    ]
    else not_counted

-- What the service takes from outside: the calendar (Go's `time.Format` and the year), and whether
-- a reading reaches the warning threshold, which the source computes in float64.
pub record UsageEnv : Type 0 where
  pub format : String → ℕ → String
  pub year : ℕ → String
  pub threshold_on : Bool
  pub reaches : ℕ → ℕ → Bool
  pub mail_configured : Bool

unfoldable pub current_period_key : UsageEnv → ℕ → String → String
current_period_key env now period =
    if period == "hourly"
    then env.format "2006-01-02T15" now
    else if period == "daily"
    then env.format "2006-01-02" now
    else if period == "monthly"
    then env.format "2006-01" now
    else if period == "yearly"
    then env.year now
    else env.format "2006-01" now

pub record Warned : Type 0 where
  pub license_id : String
  pub feature : String
  pub used : ℕ
  pub limit : ℕ

-- The tables, and what was sent: webhook events, and the warnings by webhook and by mail.
pub record UsageState : Type 0 where
  pub licenses : List License
  pub counters : List UsageCounter
  pub usage_events : List UsageEvent
  pub metered : List MeteredBilling
  pub exceeded : List Warned
  pub warnings : List Warned
  pub mails : List Warned

pub record UsageCall : Type 0 where
  pub now : ℕ
  pub io : Io
  pub new_id : String
  pub crypto : Crypto

pub record RecordUsageInput : Type 0 where
  pub license_key : String
  pub feature : String
  pub quantity : ℕ
  pub product_id : String
  pub ip_address : String

pub record RecordUsageResult : Type 0 where
  pub used : ℕ
  pub limit : ℕ
  pub remaining : ℕ
  pub period : String
  pub period_key : String

-- The first quota of the feature.
abbrev pub quota_of : String → License → Option Entitlement
quota_of feature lic = elim lic.plan [
  | none ↦ none
  | some plan ↦ select (λ e. e.feature == feature && e.value_type == "quota") plan.entitlements
]

abbrev pub quota_period : Entitlement → String
quota_period quota = if quota.quota_period == "" then "monthly" else quota.quota_period

abbrev pub counter_key : UsageEnv → ℕ → License → String → Entitlement → CounterKey
counter_key env now lic feature quota = record {
  license_id = lic.id;
  feature = feature;
  period = quota_period quota;
  period_key = current_period_key env now (quota_period quota);
}

-- `limit - used`, or -1 where the limit is 0.
abbrev pub remaining : ℕ → ℕ → ℕ
remaining limit used = if nat_eq limit 0 then minus_one else sub_int64 limit used

-- `if in.Quantity <= 0`
abbrev pub effective_quantity : ℕ → ℕ
effective_quantity quantity = if positive_int64 quantity then quantity else 1

abbrev pub crosses : UsageEnv → ℕ → ℕ → ℕ → Bool
crosses env limit quantity used =
    positive_int64 limit
    && env.threshold_on
    && env.reaches used limit
    && not (env.reaches (used - quantity) limit)

abbrev pub warned : License → String → ℕ → ℕ → Warned
warned lic feature limit used = record {
  license_id = lic.id;
  feature = feature;
  used = used;
  limit = limit;
}
