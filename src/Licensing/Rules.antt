-- ===== src/Licensing/Rules.antt =====
-- internal/service/license.go and internal/service/release.go: when a license may be used.
use saas_admin.Prelude.{
  ℕ, ◌+◌, ◌*◌, String, Bool, true, false, Option, none, some, List, [], ◌∷◌, ◌==◌, ltb,
  if◌then◌else◌,
}
use Prim.Native.String.{◌++◌ as concat}
use saas_admin.Apperr.{AppError, new, internal}
use saas_admin.Model.{
  Status, active, trialing, past_due, canceled, expired, suspended, revoked, unknown, ProductType,
  desktop, saas, hybrid, other, Capability, product_supports, Product, Entitlement, License, day,
}
use saas_admin.Prelude.Dict
use saas_admin.Prelude.Dict.{Dict}

abbrev pub locked_out : AppError
locked_out = new 429 "LOCKED_OUT" "too many failed attempts"

abbrev pub license_not_found : AppError
license_not_found = new 404 "LICENSE_NOT_FOUND" "license not found"

abbrev pub license_expired : AppError
license_expired = new 403 "LICENSE_EXPIRED" "license has expired"

abbrev pub license_canceled : AppError
license_canceled = new 403 "LICENSE_CANCELED" "license has been canceled"

abbrev product_type_name : ProductType → String
product_type_name desktop = "desktop"
product_type_name saas = "saas"
product_type_name hybrid = "hybrid"
product_type_name (other t) = t

abbrev pub feature_not_available : ProductType → String → AppError
feature_not_available kind hint =
    new 404 "FEATURE_NOT_AVAILABLE"
      (concat hint (concat " is not available for " (concat (product_type_name kind) " products")))

-- `nil` is `none`.
unfoldable pub require_product_capability : Option Product → Capability → String → Option AppError
require_product_capability none capability hint =
    some (internal "product not loaded for capability check")
require_product_capability (some prod) capability hint =
    if product_supports prod.kind capability
    then none
    else some (feature_not_available prod.kind hint)

unfoldable pub max_activations : License → ℕ
max_activations lic = elim lic.plan [ none ↦ 3 | some plan ↦ plan.max_activations ]

unfoldable pub grace_days : License → ℕ
grace_days lic = elim lic.plan [ none ↦ 7 | some plan ↦ plan.grace_days ]

abbrev grace_by_status : Status → ℕ → ℕ
grace_by_status active days = days
grace_by_status trialing days = days
grace_by_status past_due days = days
grace_by_status _ days = 0

unfoldable pub effective_grace_days : License → ℕ
unfolding grace_days
effective_grace_days lic = grace_by_status lic.status (grace_days lic)

-- The branch of a status that has a grace period.
abbrev within_grace : ℕ → Option ℕ → ℕ → Option AppError
within_grace now none grace = none
within_grace now (some valid_until) grace =
    if ltb valid_until now
    then if ltb (valid_until + grace * day) now then some license_expired else none
    else none

abbrev paid_up : ℕ → Option ℕ → Option AppError
paid_up now none = some license_canceled
paid_up now (some valid_until) = if ltb now valid_until then none else some license_canceled

-- The `switch` of `assertUsable`; the last clause is `default`.
abbrev usable_status : ℕ → Status → Option ℕ → ℕ → Option AppError
usable_status now active valid_until grace = within_grace now valid_until grace
usable_status now trialing valid_until grace = within_grace now valid_until grace
usable_status now past_due valid_until grace = within_grace now valid_until grace
usable_status now canceled valid_until grace = paid_up now valid_until
usable_status now suspended valid_until grace =
    some (new 403 "LICENSE_SUSPENDED" "license has been suspended")
usable_status now revoked valid_until grace =
    some (new 403 "LICENSE_REVOKED" "license has been revoked")
usable_status now expired valid_until grace = some license_expired
usable_status now (unknown s) valid_until grace =
    some (new 403 "LICENSE_INVALID" "license is not valid")

unfoldable pub assert_usable : ℕ → License → Option AppError
unfolding effective_grace_days
assert_usable now lic = usable_status now lic.status lic.valid_until (effective_grace_days lic)

abbrev before_grace_end : ℕ → Option ℕ → ℕ → Bool
before_grace_end now none grace = true
before_grace_end now (some valid_until) grace =
    if ltb now valid_until then true else ltb now (valid_until + grace * day)

abbrev before_end : ℕ → Option ℕ → Bool
before_end now none = false
before_end now (some valid_until) = ltb now valid_until

abbrev usable_status? : ℕ → Status → Option ℕ → ℕ → Bool
usable_status? now active valid_until grace = before_grace_end now valid_until grace
usable_status? now trialing valid_until grace = before_grace_end now valid_until grace
usable_status? now past_due valid_until grace = before_grace_end now valid_until grace
usable_status? now canceled valid_until grace = before_end now valid_until
usable_status? now _ valid_until grace = false

unfoldable pub is_license_usable : ℕ → License → Bool
unfolding grace_days
is_license_usable now lic = usable_status? now lic.status lic.valid_until (grace_days lic)

-- A feature of the verify envelope: a JSON boolean or a JSON string.
pub data Feature : Type 0 where
  flag : Bool → Feature
  words : String → Feature

abbrev feature_of : Entitlement → Feature
feature_of e = if e.value_type == "bool" then flag (e.value == "true") else words e.value

abbrev collect : Dict Feature → List Entitlement → Dict Feature
collect m [] = m
collect m (e ∷ es) = collect (Dict.put m e.feature (feature_of e)) es

unfoldable pub entitlements : License → Dict Feature
entitlements lic = elim lic.plan [
  | none ↦ Dict.empty
  | some plan ↦ collect Dict.empty plan.entitlements
]
