-- ===== src/Licensing/Tests.antt =====
-- Tests of the license service, and its theorems at concrete data.
use saas_admin.Prelude.{◌≡◌, refl, ◌≢◌, ◌↔◌, ◌⊎◌, true, none, some, arith}
use saas_admin.Prelude.Table.{select, count, update}
use saas_admin.Model.{product_supports}
use saas_admin.BruteForce.{
  BruteForceProtection, new_brute_force_protection, record_failure, record_success, is_blocked,
}
use saas_admin.Licensing.Rules.{
  assert_usable, effective_grace_days, grace_days, max_activations, require_product_capability,
  is_license_usable,
}
use saas_admin.Licensing.Token.{sign_token, expiry, token_ttl_for, deadline}
use saas_admin.Licensing.Store.{
  find_license_by_key, find_activation, touch_activation, count_activations, activate_within_limit,
}
use saas_admin.Licensing.Service.{
  license_failure_key, ip_key, World, ActivateResult, penalise, forgive, audit, dispatch, admit,
  looked_up, locate, activate_new, activate_located, activate, verify,
}
use saas_admin.Licensing.Usability.{is_license_usable_iff, token_within_license}
use saas_admin.Licensing.Slots.{Slots, activate-Slots}
use saas_admin.Licensing.Runs.{start, activates}
use saas_admin.Licensing.Replies.{VerifyReply, verify_hides_state}
use saas_admin.Licensing.Retry.{OneSlot, Runs-OneSlot}
use saas_admin.Licensing.Guard.{guard_admits, guard_never_blocks, IsServiceKey}
use saas_admin.Licensing.Sample.{license, call, empty_world, device, check}

-- The world after the first device was activated.
abbrev one_device : World
one_device = (activate (call 1000 "a1") (device "m1") empty_world).0

abbrev first_reply : ActivateResult
first_reply = record { status = "activated"; license_id = "lic"; token = "signed" }

two_devices_fit :
    count_activations "lic"
      (activate
        (call 1200 "a3")
        (device "m3")
        (activate (call 1100 "a2") (device "m2") one_device).0).0.slots
    ≡ 2
unfolding activate locate find_license_by_key looked_up admit require_product_capability
    activate_located activate_new activate_within_limit find_activation count_activations
    max_activations assert_usable effective_grace_days grace_days product_supports select count
    forgive audit dispatch penalise record_success is_blocked new_brute_force_protection
    touch_activation update
two_devices_fit = refl

activate-Slots_example :
    Slots
      (locate (call 1000 "a1") "KEY" "prod" "10.0.0.1" "device activation" empty_world)
      "lic"
      empty_world
      one_device
activate-Slots_example = activate-Slots (call 1000 "a1") (device "m1") empty_world "lic"

verify_hides_state_example :
    VerifyReply
      (call 2000 "")
      (check "m1")
      license
      one_device
      (verify (call 2000 "") (check "m1") one_device).1
unfolding activate locate find_license_by_key looked_up admit require_product_capability
    activate_located activate_new activate_within_limit find_activation max_activations
    assert_usable effective_grace_days grace_days product_supports select forgive audit dispatch
    penalise record_success is_blocked new_brute_force_protection sign_token count_activations count
verify_hides_state_example = verify_hides_state (call 2000 "") (check "m1") one_device license refl

is_license_usable_iff_example :
    (is_license_usable 5 license ≡ true)
    ↔ ((assert_usable 5 license ≡ none) × (deadline license ≢ some 5))
is_license_usable_iff_example = is_license_usable_iff 5 license

token_within_license_example : assert_usable 9 license ≡ none
unfolding assert_usable effective_grace_days grace_days expiry token_ttl_for deadline
token_within_license_example = token_within_license 5 9 license refl (omega arith) (omega arith)

one_device-OneSlot : OneSlot one_device.slots
unfolding count
one_device-OneSlot =
    Runs-OneSlot (activates (call 1000 "a1") (device "m1") start) (λ l i. omega arith)

-- The tracker after one request with a wrong key.
abbrev failed_once : BruteForceProtection
failed_once =
    record_failure 1 (ip_key "10.0.0.1")
      (record_failure 1 (license_failure_key "WRONG") (new_brute_force_protection 5 60 1800 300))

guard_never_blocks_example :
    (guard_admits 7 "10.0.0.1" failed_once ≡ true) ⊎ IsServiceKey "10.0.0.1"
unfolding activate locate find_license_by_key looked_up select is_blocked new_brute_force_protection
    penalise
guard_never_blocks_example =
    guard_never_blocks 5 60 1800 300 {w₀ = empty_world} 7 "10.0.0.1" refl
      (activates (call 1 "") (record (device "m1") { license_key = "WRONG" }) start) refl
