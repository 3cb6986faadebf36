-- ===== src/Licensing/Slots.antt =====
-- What activation does to the table of activations (internal/service/license.go, `Activate`).
use mathlib.Core.Path.{subst}
use saas_admin.Prelude.{
  ℕ, suc, ◌+◌, ◌≤◌, ◌<◌, max, String, ◌≡◌, refl, ap, ◌⊎◌, inl, inr, Bool, Option, none, some, List,
  ◌∷◌, arith, ◌==◌, eq_iff, Bool-cases,
}
use saas_admin.Prelude.Table.{select, count}
use saas_admin.Database.{Found, found, no_rows, failed}
use saas_admin.Apperr.{AppError}
use saas_admin.Model.{License, Activation}
use saas_admin.Licensing.Rules.{max_activations, assert_usable}
use saas_admin.Licensing.Store.{
  of_license, same_slot, find_activation, count_activations, activate_within_limit, ActivateOutcome,
  activated, limit_reached, not_activated,
}
use saas_admin.Licensing.Effects.{count-touch, slots-granted}
use saas_admin.Licensing.Service.{
  World, Call, ActivateInput, Located, rejected, penalised, located, locate, new_activation,
  penalise, activate_new, activate_located, activate,
}

-- A committed activation is one new row, below the limit, in a slot that was free.
activated_inv :
    (io : ℕ → Bool) (act : Activation) (max : ℕ) (t t' : List Activation)
    → activate_within_limit io act max t ≡ activated t'
    → (t' ≡ act ∷ t)
      × (count_activations act.license_id t < max)
      × (select (same_slot act.license_id act.identifier) t ≡ none)
unfolding activate_within_limit
activated_inv io act max t t' h = ground arith

-- How an operation may change the count of a license: not at all, or by one slot of the license
-- that was located, within its limit.
abbrev pub Slots : Located → String → World → World → Type 0
Slots l i w w' =
    (count_activations i w'.slots ≡ count_activations i w.slots)
    ⊎ ((lic : License) × (l ≡ located lic)
        × (lic.id ≡ i)
        × (count_activations i w'.slots ≡ suc (count_activations i w.slots))
        × (count_activations i w'.slots ≤ max_activations lic))

slots-penalise : (now : ℕ) (key ip : String) (w : World) → (penalise now key ip w).slots ≡ w.slots
unfolding penalise
slots-penalise now key ip w = refl

new_by :
    (call : Call) (input : ActivateInput) (lic : License) (w : World) (i : String)
    (o : ActivateOutcome)
    → activate_within_limit
        (λ n. call.io (4 + n))
        (new_activation call input lic)
        (max_activations lic)
        w.slots
      ≡ o
    → Slots (located lic) i w (activate_new call input lic w).0
unfolding activate_new count_activations count
new_by call input lic w i (activated t) e =
    let inv =
      activated_inv (λ n. call.io (4 + n)) (new_activation call input lic) (max_activations lic)
        w.slots t e in
    rw (e, activate_new, slots-granted, inv.0)
      (elim (Bool-cases (lic.id == i)) [
        | inl same ↦
            let p : lic.id ≡ i = (eq_iff lic.id i).0 same in
            let room = subst (λ j. count_activations j w.slots < max_activations lic) p inv.1 in
            inr (lic, refl, p, rw same (omega arith), rw same (omega (arith, room)))
        | inr other ↦ inl (rw other (omega arith))
      ])
new_by call input lic w i limit_reached e = rw (e, activate_new) (inl refl)
new_by call input lic w i not_activated e = rw (e, activate_new) (inl refl)

located_by :
    (call : Call) (input : ActivateInput) (lic : License) (w : World) (i : String)
    (u : Option AppError) (f : Found Activation)
    → assert_usable call.now lic ≡ u
    → find_activation (call.io 2) lic.id input.identifier w.slots ≡ f
    → Slots (located lic) i w (activate_located call input lic w).0
unfolding activate_located count_activations
located_by call input lic w i (some x) f e₀ e₁ = rw (e₀, activate_located) (inl refl)
located_by call input lic w i none (found a) e₀ e₁ =
    rw (e₀, e₁, activate_located)
      (inl (count-touch (of_license i) (call.io 3) call.now a.id w.slots (λ b. refl)))
located_by call input lic w i none no_rows e₀ e₁ =
    rw (e₀, e₁, activate_located) (new_by call input lic w i _ refl)
located_by call input lic w i none failed e₀ e₁ =
    rw (e₀, e₁, activate_located) (new_by call input lic w i _ refl)

activate_by :
    (call : Call) (input : ActivateInput) (w : World) (i : String) (l : Located)
    → locate call input.license_key input.product_id input.ip_address "device activation" w ≡ l
    → Slots l i w (activate call input w).0
unfolding activate
activate_by call input w i (rejected x) e = rw (e, activate) (inl refl)
activate_by call input w i (penalised x) e =
    rw (e, activate)
      (inl
        (ap (count_activations i) (slots-penalise call.now input.license_key input.ip_address w)))
activate_by call input w i (located lic) e =
    rw (e, activate) (located_by call input lic w i _ _ refl refl)

-- An activation request changes the number of activations of a license in no case but one: when it
-- located that license it may add exactly one, and the sum is at most the limit of its plan.
pub activate-Slots :
    (call : Call) (input : ActivateInput) (w : World) (i : String)
    → Slots
        (locate call input.license_key input.product_id input.ip_address "device activation" w)
        i
        w
        (activate call input w).0
activate-Slots call input w i = activate_by call input w i _ refl
