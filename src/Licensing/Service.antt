-- ===== src/Licensing/Service.antt =====
-- The operations of internal/service/license.go: each takes the state and returns the new one with
-- its result. A request reads the clock once. The Prometheus counters, the log lines and the
-- constant `meta` of the replies are left out.
use saas_admin.Prelude.{
  ℕ, ◌+◌, max, String, Bool, false, not, ◌&&◌, Option, none, some, List, [], ◌∷◌, ◌==◌,
  if◌then◌else◌,
}
use Prim.Native.String.{◌++◌ as concat}
use saas_admin.Apperr.{AppError, Result, ok, err, conflict, with_details, internal, number}
use saas_admin.Database.{Found, Io, found, no_rows, failed, db_error}
use saas_admin.Model.{Status, activations, License, Activation, AuditLog, Event}
use saas_admin.BruteForce.{BruteForceProtection, record_failure, record_success, is_blocked}
use saas_admin.Prelude.Dict.{Dict}
use saas_admin.Licensing.Rules.{
  locked_out, license_not_found, require_product_capability, max_activations, effective_grace_days,
  assert_usable, Feature, entitlements,
}
use saas_admin.Licensing.Token.{Crypto, sign_token}
use saas_admin.Licensing.Store.{
  find_license_by_key, find_activation, touch_activation, delete_activation, count_activations,
  activate_within_limit, activated, limit_reached, not_activated,
}

-- The tables, the failure tracker (`nil` is `none`), the audit rows and the webhook events handed
-- to the dispatcher, newest first.
pub record World : Type 0 where
  pub licenses : List License
  pub slots : List Activation
  pub failures : Option BruteForceProtection
  pub has_webhook : Bool
  pub audits : List AuditLog
  pub events : List Event

-- What a request finds outside the state: the time, the fate of its statements, a fresh id and
-- the cryptographic functions.
pub record Call : Type 0 where
  pub now : ℕ
  pub io : Io
  pub new_id : String
  pub crypto : Crypto

pub record ActivateInput : Type 0 where
  pub license_key : String
  pub identifier : String
  pub identifier_type : String
  pub label : String
  pub ip_address : String
  pub product_id : String

pub record ActivateResult : Type 0 where
  pub status : String
  pub license_id : String
  pub token : String

-- `VerifyInput` and `DeactivateInput` have the same fields.
pub record VerifyInput : Type 0 where
  pub license_key : String
  pub identifier : String
  pub product_id : String
  pub ip_address : String

pub record VerifyResult : Type 0 where
  pub status : Status
  pub plan_id : String
  pub plan_name : String
  pub valid_until : Option ℕ
  pub features : Dict Feature
  pub token : String
  pub grace_days : ℕ
  pub external_customer_id : String
  pub external_workspace_id : String

abbrev pub ip_key : String → String
ip_key ip = concat "ip:" ip

abbrev pub license_failure_key : String → String
license_failure_key key = concat "key:" key

abbrev pub blocked : ℕ → String → Option BruteForceProtection → Bool
blocked now ip none = false
blocked now ip (some bf) = is_blocked now (ip_key ip) bf

abbrev pub failed_attempt :
    ℕ → String → String → Option BruteForceProtection → Option BruteForceProtection
failed_attempt now key ip none = none
failed_attempt now key ip (some bf) =
    some (record_failure now (ip_key ip) (record_failure now (license_failure_key key) bf))

abbrev pub good_attempt :
    String → String → Option BruteForceProtection → Option BruteForceProtection
good_attempt key ip none = none
good_attempt key ip (some bf) =
    some (record_success (ip_key ip) (record_success (license_failure_key key) bf))

-- RecordFailure for the key and for the address.
unfoldable pub penalise : ℕ → String → String → World → World
penalise now key ip w = record w { failures = failed_attempt now key ip w.failures }

-- RecordSuccess for both.
unfoldable pub forgive : String → String → World → World
forgive key ip w = record w { failures = good_attempt key ip w.failures }

unfoldable pub audit : AuditLog → World → World
audit log w = record w { audits = log ∷ w.audits }

unfoldable pub dispatch : Event → World → World
dispatch e w = if w.has_webhook then record w { events = e ∷ w.events } else w

-- How the part that the three operations share ends: with an error, with an error after the
-- attempt was recorded as a failure, or with the license.
pub data Located : Type 0 where
  rejected : AppError → Located
  penalised : AppError → Located
  located : License → Located

abbrev pub other_product : String → License → Bool
other_product product_id lic = not (product_id == "") && not (lic.product_id == product_id)

-- The product scope and the product's capabilities.
unfoldable pub admit : String → String → License → Located
unfolding require_product_capability
admit product_id hint lic =
    if other_product product_id lic
    then penalised license_not_found
    else elim (require_product_capability lic.product activations hint) [
      | some e ↦ rejected e
      | none ↦ located lic
    ]

unfoldable pub looked_up : String → String → Found License → Located
unfolding admit
looked_up product_id hint failed = rejected (internal db_error)
looked_up product_id hint no_rows = penalised license_not_found
looked_up product_id hint (found lic) = admit product_id hint lic

-- The checks that Activate, Verify and Deactivate begin with. Statements: 0 and 1.
unfoldable pub locate : Call → String → String → String → String → World → Located
unfolding find_license_by_key looked_up
locate call key product_id ip hint w =
    if blocked call.now ip w.failures
    then rejected locked_out
    else looked_up product_id hint (find_license_by_key call.crypto call.io key w.licenses)

abbrev pub signed : String → License → Option String → Result ActivateResult
signed status lic none = err (internal "sign")
signed status lic (some token) = ok (record { status = status; license_id = lic.id; token = token })

abbrev pub new_activation : Call → ActivateInput → License → Activation
new_activation call input lic = record {
  id = call.new_id;
  license_id = lic.id;
  identifier = input.identifier;
  identifier_type = if input.identifier_type == "" then "device" else input.identifier_type;
  label = input.label;
  ip_address = input.ip_address;
  last_verified = call.now;
}

abbrev pub activation_limit : ℕ → ℕ → AppError
activation_limit max current =
    with_details (conflict "ACTIVATION_LIMIT" "maximum activations reached")
      (("max", number max) ∷ ("current", number current) ∷ [])

abbrev license_audit : String → License → AuditLog
license_audit action lic = record {
  entity = "license";
  entity_id = lic.id;
  action = action;
  actor_type = "sdk";
}

abbrev license_event : String → License → Event
license_event event lic = record { product_id = lic.product_id; event = event; license_id = lic.id }

-- What follows a committed activation: the audit row, RecordSuccess, the webhook event.
unfoldable pub granted : ActivateInput → License → List Activation → World → World
unfolding audit forgive dispatch
granted input lic slots w = dispatch (license_event "license.activated" lic) (
    forgive input.license_key input.ip_address
      (audit (license_audit "activated" lic) (record w { slots = slots })))

-- The slot is new: statements 4 to 8 are the transaction, 9 the count for the error's details.
unfoldable pub activate_new : Call → ActivateInput → License → World → World × Result ActivateResult
unfolding granted
activate_new call input lic w =
    let max = max_activations lic in
    elim (activate_within_limit (λ n. call.io (4 + n)) (new_activation call input lic) max
      w.slots) [
        | limit_reached ↦ (
          w,
          err (activation_limit max (if call.io 9 then count_activations lic.id w.slots else 0)),
        )
        | not_activated ↦ (w, err (internal db_error))
        | activated slots ↦ (
          granted input lic slots w,
          signed "activated" lic (sign_token call.crypto call.now lic input.identifier),
        )
      ]

-- Statement 2 looks for the activation, 3 touches it; an error of either is ignored.
unfoldable pub activate_located :
    Call → ActivateInput → License → World → World × Result ActivateResult
unfolding activate_new
activate_located call input lic w = elim (assert_usable call.now lic) [
  | some e ↦ (w, err e)
  | none ↦ elim (find_activation (call.io 2) lic.id input.identifier w.slots) [
    | found existing ↦ (
      record w { slots = touch_activation (call.io 3) call.now existing.id w.slots },
      signed "already_activated" lic (sign_token call.crypto call.now lic input.identifier),
    )
    | _ ↦ activate_new call input lic w
  ]
]

unfoldable pub activate : Call → ActivateInput → World → World × Result ActivateResult
unfolding penalise locate activate_located
activate call input w =
    elim (locate call input.license_key input.product_id input.ip_address "device activation" w) [
      | rejected e ↦ (w, err e)
      | penalised e ↦ (penalise call.now input.license_key input.ip_address w, err e)
      | located lic ↦ activate_located call input lic w
    ]

abbrev pub verified : License → Option String → Result VerifyResult
verified lic none = err (internal "sign")
verified lic (some token) = ok (record {
  status = lic.status;
  plan_id = lic.plan_id;
  plan_name = elim lic.plan [ none ↦ "" | some plan ↦ plan.name ];
  valid_until = lic.valid_until;
  features = entitlements lic;
  token = token;
  grace_days = effective_grace_days lic;
  external_customer_id = lic.external_customer_id;
  external_workspace_id = lic.external_workspace_id;
})

unfoldable pub verify_located : Call → VerifyInput → License → World → World × Result VerifyResult
unfolding penalise forgive
verify_located call input lic w = elim (assert_usable call.now lic) [
  | some e ↦ (penalise call.now input.license_key input.ip_address w, err license_not_found)
  | none ↦ elim (find_activation (call.io 2) lic.id input.identifier w.slots) [
    | found act ↦ (
      forgive input.license_key input.ip_address
          (record w { slots = touch_activation (call.io 3) call.now act.id w.slots }),
      verified lic (sign_token call.crypto call.now lic input.identifier),
    )
    | _ ↦ (w, err license_not_found)
  ]
]

unfoldable pub verify : Call → VerifyInput → World → World × Result VerifyResult
unfolding penalise locate verify_located
verify call input w =
    elim (locate call input.license_key input.product_id input.ip_address "device verification" w) [
      | rejected e ↦ (w, err e)
      | penalised e ↦ (penalise call.now input.license_key input.ip_address w, err e)
      | located lic ↦ verify_located call input lic w
    ]

-- Statement 2 looks for the activation, 3 deletes it.
unfoldable pub deactivate_located : Call → VerifyInput → License → World → World × Result (Unit {0})
unfolding audit forgive dispatch
deactivate_located call input lic w =
    elim (find_activation (call.io 2) lic.id input.identifier w.slots) [
      | found act ↦ elim (delete_activation (call.io 3) act.id w.slots) [
        | none ↦ (w, err (internal db_error))
        | some slots ↦ (
          dispatch (license_event "license.deactivated" lic) (
              audit (license_audit "deactivated" lic)
                (forgive input.license_key input.ip_address (record w { slots = slots }))),
          ok tt,
        )
      ]
      | _ ↦ (w, err license_not_found)
    ]

unfoldable pub deactivate : Call → VerifyInput → World → World × Result (Unit {0})
unfolding penalise locate deactivate_located
deactivate call input w =
    elim (locate call input.license_key input.product_id input.ip_address "device deactivation" w) [
      | rejected e ↦ (w, err e)
      | penalised e ↦ (penalise call.now input.license_key input.ip_address w, err e)
      | located lic ↦ deactivate_located call input lic w
    ]
