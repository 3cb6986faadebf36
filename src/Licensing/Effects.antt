-- ===== src/Licensing/Effects.antt =====
-- What the requests to internal/service/license.go do to the table of activations.
use saas_admin.Prelude.{
  ℕ, ◌+◌, max, String, ◌≡◌, refl, inl, inr, Bool, true, false, Option, none, some, List, ◌∷◌, arith,
  ◌==◌, Bool-cases,
}
use saas_admin.Prelude.Table.{select, count, delete, count-update}
use saas_admin.Apperr.{AppError}
use saas_admin.Database.{Found, found, no_rows, failed}
use saas_admin.Model.{License, Activation, Event}
use saas_admin.Licensing.Rules.{assert_usable, max_activations}
use saas_admin.Licensing.Store.{
  same_slot, find_activation, touch_activation, delete_activation, activate_within_limit,
  ActivateOutcome, activated, limit_reached, not_activated,
}
use saas_admin.Licensing.Service.{
  World, Call, ActivateInput, VerifyInput, Located, rejected, penalised, located, locate, penalise,
  forgive, granted, new_activation, activate_new, activate_located, activate, verify_located,
  verify, deactivate_located, deactivate, dispatch, audit,
}

-- What a request may do to the table of activations.
pub data Effect (t : List Activation) : List Activation → Type 0 where
  kept : Effect t t
  touched : (runs : Bool) (now : ℕ) (id : String) → Effect t (touch_activation runs now id t)
  added :
      (a : Activation) → select (same_slot a.license_id a.identifier) t ≡ none → Effect t (a ∷ t)
  removed : (id : String) → Effect t (delete (λ a. a.id == id) t)

pub slots-dispatch : (e : Event) (w : World) → (dispatch e w).slots ≡ w.slots
unfolding dispatch
slots-dispatch e w = ground arith

pub slots-granted :
    (input : ActivateInput) (lic : License) (slots : List Activation) (w : World)
    → (granted input lic slots w).slots ≡ slots
unfolding granted
slots-granted input lic slots w = ground arith

pub inserted_inv :
    (io : ℕ → Bool) (act : Activation) (max : ℕ) (t t' : List Activation)
    → activate_within_limit io act max t ≡ activated t'
    → (t' ≡ act ∷ t) × (select (same_slot act.license_id act.identifier) t ≡ none)
unfolding activate_within_limit
inserted_inv io act max t t' h = ground arith

Effect-activate_new :
    (call : Call) (input : ActivateInput) (lic : License) (w : World) (o : ActivateOutcome)
    → activate_within_limit
        (λ n. call.io (4 + n))
        (new_activation call input lic)
        (max_activations lic)
        w.slots
      ≡ o
    → Effect w.slots (activate_new call input lic w).0.slots
unfolding activate_new
Effect-activate_new call input lic w (activated t) e =
    let act = new_activation call input lic in
    let inv = inserted_inv (λ n. call.io (4 + n)) act (max_activations lic) w.slots t e in
    rw (e, activate_new, slots-granted, inv.0) (added act inv.1)
Effect-activate_new call input lic w limit_reached e = rw (e, activate_new) kept
Effect-activate_new call input lic w not_activated e = rw (e, activate_new) kept

Effect-activate_located :
    (call : Call) (input : ActivateInput) (lic : License) (w : World) (u : Option AppError)
    (f : Found Activation)
    → assert_usable call.now lic ≡ u
    → find_activation (call.io 2) lic.id input.identifier w.slots ≡ f
    → Effect w.slots (activate_located call input lic w).0.slots
unfolding activate_located
Effect-activate_located call input lic w (some x) f e₀ e₁ = rw (e₀, activate_located) kept
Effect-activate_located call input lic w none (found a) e₀ e₁ =
    rw (e₀, e₁, activate_located) (touched (call.io 3) call.now a.id)
Effect-activate_located call input lic w none no_rows e₀ e₁ =
    rw (e₀, e₁, activate_located) (Effect-activate_new call input lic w _ refl)
Effect-activate_located call input lic w none failed e₀ e₁ =
    rw (e₀, e₁, activate_located) (Effect-activate_new call input lic w _ refl)

pub Effect-activate :
    (call : Call) (input : ActivateInput) (w : World) (l : Located)
    → locate call input.license_key input.product_id input.ip_address "device activation" w ≡ l
    → Effect w.slots (activate call input w).0.slots
unfolding activate penalise
Effect-activate call input w (rejected x) e = rw (e, activate) kept
Effect-activate call input w (penalised x) e = rw (e, activate) kept
Effect-activate call input w (located lic) e =
    rw (e, activate) (Effect-activate_located call input lic w _ _ refl refl)

Effect-verify_located :
    (call : Call) (input : VerifyInput) (lic : License) (w : World) (u : Option AppError)
    (f : Found Activation)
    → assert_usable call.now lic ≡ u
    → find_activation (call.io 2) lic.id input.identifier w.slots ≡ f
    → Effect w.slots (verify_located call input lic w).0.slots
unfolding verify_located penalise forgive
Effect-verify_located call input lic w (some x) f e₀ e₁ = rw (e₀, verify_located) kept
Effect-verify_located call input lic w none (found a) e₀ e₁ =
    rw (e₀, e₁, verify_located) (touched (call.io 3) call.now a.id)
Effect-verify_located call input lic w none no_rows e₀ e₁ = rw (e₀, e₁, verify_located) kept
Effect-verify_located call input lic w none failed e₀ e₁ = rw (e₀, e₁, verify_located) kept

pub Effect-verify :
    (call : Call) (input : VerifyInput) (w : World) (l : Located)
    → locate call input.license_key input.product_id input.ip_address "device verification" w ≡ l
    → Effect w.slots (verify call input w).0.slots
unfolding verify penalise
Effect-verify call input w (rejected x) e = rw (e, verify) kept
Effect-verify call input w (penalised x) e = rw (e, verify) kept
Effect-verify call input w (located lic) e =
    rw (e, verify) (Effect-verify_located call input lic w _ _ refl refl)

Effect-deactivate_located :
    (call : Call) (input : VerifyInput) (lic : License) (w : World) (f : Found Activation)
    → find_activation (call.io 2) lic.id input.identifier w.slots ≡ f
    → Effect w.slots (deactivate_located call input lic w).0.slots
unfolding deactivate_located delete_activation forgive audit
Effect-deactivate_located call input lic w no_rows e = rw (e, deactivate_located) kept
Effect-deactivate_located call input lic w failed e = rw (e, deactivate_located) kept
Effect-deactivate_located call input lic w (found a) e = elim (Bool-cases (call.io 3)) [
  | inl b ↦ rw (e, b, deactivate_located, slots-dispatch) (removed a.id)
  | inr b ↦ rw (e, b, deactivate_located) kept
]

pub Effect-deactivate :
    (call : Call) (input : VerifyInput) (w : World) (l : Located)
    → locate call input.license_key input.product_id input.ip_address "device deactivation" w ≡ l
    → Effect w.slots (deactivate call input w).0.slots
unfolding deactivate penalise
Effect-deactivate call input w (rejected x) e = rw (e, deactivate) kept
Effect-deactivate call input w (penalised x) e = rw (e, deactivate) kept
Effect-deactivate call input w (located lic) e =
    rw (e, deactivate) (Effect-deactivate_located call input lic w _ refl)

pub count-touch :
    (p : Activation → Bool) (runs : Bool) (now : ℕ) (id : String) (t : List Activation)
    → ((a : Activation) → p (record a { last_verified = now }) ≡ p a)
    → count p (touch_activation runs now id t) ≡ count p t
unfolding touch_activation
count-touch p true now id t h =
    count-update p (λ a. a.id == id) (λ a. record a { last_verified = now }) t (λ a _. h a)
count-touch p false now id t h = refl
