-- ===== src/Licensing/Guard.antt =====
-- LicenseBruteForceGuard of internal/middleware/bruteforce.go, which stands before the routes of
-- internal/service/license.go, on the tracker that they share.
use mathlib.Core.Path.{subst}
use saas_admin.Prelude.{
  ℕ, ◌+◌, String, ◌≡◌, refl, sym, ◌⊎◌, inl, inr, Bool, true, not, Option, none, some, List, arith,
  ◌==◌, eq_iff, Bool-cases,
}
use saas_admin.Apperr.{AppError}
use saas_admin.Database.{Found, found, no_rows, failed}
use saas_admin.BruteForce.{
  BruteForceProtection, new_brute_force_protection, record_failure, record_success, is_blocked,
  cleanup,
}
use saas_admin.Model.{License, Activation, Event}
use saas_admin.Licensing.Rules.{assert_usable, max_activations}
use saas_admin.Licensing.Store.{
  find_activation, delete_activation, activate_within_limit, ActivateOutcome, activated,
  limit_reached, not_activated,
}
use saas_admin.Licensing.Runs.{Runs, start, activates, verifies, deactivates, cleans}
use saas_admin.Licensing.Service.{
  World, Call, ActivateInput, VerifyInput, Located, rejected, penalised, located, locate, penalise,
  forgive, granted, ip_key, license_failure_key, failed_attempt, good_attempt, new_activation,
  activate_new, activate_located, activate, verify_located, verify, deactivate_located, deactivate,
  dispatch, audit,
}

-- Whether the guard lets a request of that address pass.
unfoldable pub guard_admits : ℕ → String → BruteForceProtection → Bool
unfolding is_blocked
guard_admits now ip bf = not (is_blocked now ip bf)

-- A key as the license service makes them.
abbrev pub IsServiceKey : String → Type 0
IsServiceKey j =
    ((ip : String) × (j ≡ ip_key ip)) ⊎ ((key : String) × (j ≡ license_failure_key key))

-- A tracker that holds service keys only.
abbrev pub OnlyServiceKeys : Option BruteForceProtection → Type 0
OnlyServiceKeys none = Unit
OnlyServiceKeys (some bf) = (j : String) → (bf.attempts j ≡ none) ⊎ IsServiceKey j

only-record_failure :
    (now : ℕ) (k : String) (bf : BruteForceProtection)
    → IsServiceKey k
    → OnlyServiceKeys (some bf)
    → OnlyServiceKeys (some (record_failure now k bf))
unfolding record_failure
only-record_failure now k bf s o j = elim (Bool-cases (k == j)) [
  | inl e ↦ inr (subst IsServiceKey ((eq_iff k j).0 e) s)
  | inr e ↦ rw e (o j)
]

only-record_success :
    (k : String) (bf : BruteForceProtection)
    → OnlyServiceKeys (some bf)
    → OnlyServiceKeys (some (record_success k bf))
unfolding record_success
only-record_success k bf o j = elim (Bool-cases (k == j)) [
  | inl e ↦ rw e (inl refl)
  | inr e ↦ rw e (o j)
]

only-cleanup :
    (now : ℕ) (bf : BruteForceProtection)
    → OnlyServiceKeys (some bf)
    → OnlyServiceKeys (some (cleanup now bf))
unfolding cleanup
only-cleanup now bf o j = elim (o j) [ inl e ↦ inl (rw e refl) | inr s ↦ inr s ]

only-failed_attempt :
    (now : ℕ) (key ip : String) (f : Option BruteForceProtection)
    → OnlyServiceKeys f
    → OnlyServiceKeys (failed_attempt now key ip f)
only-failed_attempt now key ip none o = tt
only-failed_attempt now key ip (some bf) o =
    only-record_failure now (ip_key ip) (record_failure now (license_failure_key key) bf)
      (inl (ip, refl)) (only-record_failure now (license_failure_key key) bf (inr (key, refl)) o)

only-good_attempt :
    (key ip : String) (f : Option BruteForceProtection)
    → OnlyServiceKeys f
    → OnlyServiceKeys (good_attempt key ip f)
only-good_attempt key ip none o = tt
only-good_attempt key ip (some bf) o =
    only-record_success (ip_key ip) (record_success (license_failure_key key) bf)
      (only-record_success (license_failure_key key) bf o)

failures-dispatch : (e : Event) (w : World) → (dispatch e w).failures ≡ w.failures
unfolding dispatch
failures-dispatch e w = ground arith

only-granted :
    (input : ActivateInput) (lic : License) (t : List Activation) (w : World)
    → OnlyServiceKeys w.failures
    → OnlyServiceKeys (granted input lic t w).failures
unfolding granted forgive audit
only-granted input lic t w o =
    rw failures-dispatch (only-good_attempt input.license_key input.ip_address _ o)

only-activate_new :
    (call : Call) (input : ActivateInput) (lic : License) (w : World) (o : ActivateOutcome)
    → activate_within_limit
        (λ n. call.io (4 + n))
        (new_activation call input lic)
        (max_activations lic)
        w.slots
      ≡ o
    → OnlyServiceKeys w.failures
    → OnlyServiceKeys (activate_new call input lic w).0.failures
unfolding activate_new
only-activate_new call input lic w (activated t) e o =
    rw (e, activate_new) (only-granted input lic t w o)
only-activate_new call input lic w limit_reached e o = rw (e, activate_new) o
only-activate_new call input lic w not_activated e o = rw (e, activate_new) o

only-activate_located :
    (call : Call) (input : ActivateInput) (lic : License) (w : World) (u : Option AppError)
    (f : Found Activation)
    → assert_usable call.now lic ≡ u
    → find_activation (call.io 2) lic.id input.identifier w.slots ≡ f
    → OnlyServiceKeys w.failures
    → OnlyServiceKeys (activate_located call input lic w).0.failures
unfolding activate_located
only-activate_located call input lic w (some x) f e₀ e₁ o = rw (e₀, activate_located) o
only-activate_located call input lic w none (found a) e₀ e₁ o = rw (e₀, e₁, activate_located) o
only-activate_located call input lic w none no_rows e₀ e₁ o =
    rw (e₀, e₁, activate_located) (only-activate_new call input lic w _ refl o)
only-activate_located call input lic w none failed e₀ e₁ o =
    rw (e₀, e₁, activate_located) (only-activate_new call input lic w _ refl o)

only-activate :
    (call : Call) (input : ActivateInput) (w : World) (l : Located)
    → locate call input.license_key input.product_id input.ip_address "device activation" w ≡ l
    → OnlyServiceKeys w.failures
    → OnlyServiceKeys (activate call input w).0.failures
unfolding activate penalise
only-activate call input w (rejected x) e o = rw (e, activate) o
only-activate call input w (penalised x) e o =
    rw (e, activate) (only-failed_attempt call.now input.license_key input.ip_address _ o)
only-activate call input w (located lic) e o =
    rw (e, activate) (only-activate_located call input lic w _ _ refl refl o)

only-verify_located :
    (call : Call) (input : VerifyInput) (lic : License) (w : World) (u : Option AppError)
    (f : Found Activation)
    → assert_usable call.now lic ≡ u
    → find_activation (call.io 2) lic.id input.identifier w.slots ≡ f
    → OnlyServiceKeys w.failures
    → OnlyServiceKeys (verify_located call input lic w).0.failures
unfolding verify_located penalise forgive
only-verify_located call input lic w (some x) f e₀ e₁ o =
    rw (e₀, verify_located) (only-failed_attempt call.now input.license_key input.ip_address _ o)
only-verify_located call input lic w none (found a) e₀ e₁ o =
    rw (e₀, e₁, verify_located) (only-good_attempt input.license_key input.ip_address _ o)
only-verify_located call input lic w none no_rows e₀ e₁ o = rw (e₀, e₁, verify_located) o
only-verify_located call input lic w none failed e₀ e₁ o = rw (e₀, e₁, verify_located) o

only-verify :
    (call : Call) (input : VerifyInput) (w : World) (l : Located)
    → locate call input.license_key input.product_id input.ip_address "device verification" w ≡ l
    → OnlyServiceKeys w.failures
    → OnlyServiceKeys (verify call input w).0.failures
unfolding verify penalise
only-verify call input w (rejected x) e o = rw (e, verify) o
only-verify call input w (penalised x) e o =
    rw (e, verify) (only-failed_attempt call.now input.license_key input.ip_address _ o)
only-verify call input w (located lic) e o =
    rw (e, verify) (only-verify_located call input lic w _ _ refl refl o)

only-deactivate_located :
    (call : Call) (input : VerifyInput) (lic : License) (w : World) (f : Found Activation)
    → find_activation (call.io 2) lic.id input.identifier w.slots ≡ f
    → OnlyServiceKeys w.failures
    → OnlyServiceKeys (deactivate_located call input lic w).0.failures
unfolding deactivate_located delete_activation forgive audit
only-deactivate_located call input lic w no_rows e o = rw (e, deactivate_located) o
only-deactivate_located call input lic w failed e o = rw (e, deactivate_located) o
only-deactivate_located call input lic w (found a) e o = elim (Bool-cases (call.io 3)) [
  | inl b ↦
      rw (e, b, deactivate_located, failures-dispatch)
        (only-good_attempt input.license_key input.ip_address _ o)
  | inr b ↦ rw (e, b, deactivate_located) o
]

only-deactivate :
    (call : Call) (input : VerifyInput) (w : World) (l : Located)
    → locate call input.license_key input.product_id input.ip_address "device deactivation" w ≡ l
    → OnlyServiceKeys w.failures
    → OnlyServiceKeys (deactivate call input w).0.failures
unfolding deactivate penalise
only-deactivate call input w (rejected x) e o = rw (e, deactivate) o
only-deactivate call input w (penalised x) e o =
    rw (e, deactivate) (only-failed_attempt call.now input.license_key input.ip_address _ o)
only-deactivate call input w (located lic) e o =
    rw (e, deactivate) (only-deactivate_located call input lic w _ refl o)

only-Runs : {w₀ w : World} → Runs w₀ w → OnlyServiceKeys w₀.failures → OnlyServiceKeys w.failures
only-Runs start o = o
only-Runs (activates call input r) o = only-activate call input _ _ refl (only-Runs r o)
only-Runs (verifies call input r) o = only-verify call input _ _ refl (only-Runs r o)
only-Runs (deactivates call input r) o = only-deactivate call input _ _ refl (only-Runs r o)
only-Runs (cleans now e r) o = only-cleanup now _ (subst OnlyServiceKeys e (only-Runs r o))

-- The guard never blocks an address that is not itself written like a key of the service (`ip:…` or
-- `key:…`): from a fresh tracker, whatever the endpoints and the cleanup did, such an address passes.
pub guard_never_blocks :
    (max_fails lockout max_lockout window : ℕ) {w₀ w : World} {bf : BruteForceProtection} (now : ℕ)
    (ip : String)
    → w₀.failures ≡ some (new_brute_force_protection max_fails lockout max_lockout window)
    → Runs w₀ w
    → w.failures ≡ some bf
    → (guard_admits now ip bf ≡ true) ⊎ IsServiceKey ip
unfolding guard_admits is_blocked new_brute_force_protection
guard_never_blocks max_fails lockout max_lockout window now ip e₀ r e =
    let o =
      subst OnlyServiceKeys e (only-Runs r (subst OnlyServiceKeys (sym e₀) (λ j. inl refl))) in
    elim (o ip) [ inl n ↦ inl (rw n refl) | inr s ↦ inr s ]
