-- ===== src/Licensing/Retry.antt =====
-- The slot of a device over later requests (internal/service/license.go): a retry, a deactivation.
use saas_admin.Prelude.{
  ◌+◌, ◌≤◌, String, ◌≡◌, refl, sym, ap, inl, inr, Bool, true, false, Option, none, some, List, [],
  ◌∷◌, arith, ◌==◌, eq_iff, eq_refl, Bool-cases,
}
use saas_admin.Prelude.Table.{
  delete, select, count, count-update, count-delete-le, count-eq-zero_of_select,
  count_pos_of_select,
}
use saas_admin.Apperr.{err, AppError, Result, ok}
use saas_admin.Database.{Found, found, no_rows, failed}
use saas_admin.Model.{License, Activation}
use saas_admin.Licensing.Rules.{assert_usable, max_activations}
use saas_admin.Licensing.Store.{
  delete_activation, count_activations, same_slot, find_activation, touch_activation,
  activate_within_limit, ActivateOutcome, activated, limit_reached, not_activated,
}
use saas_admin.Licensing.Service.{
  forgive, audit, deactivate_located, deactivate, VerifyInput, World, Call, ActivateInput,
  ActivateResult, Located, rejected, penalised, located, locate, new_activation, activate_new,
  activate_located, activate, signed,
}
use saas_admin.Licensing.Token.{sign_token}
use saas_admin.Licensing.Runs.{Runs, start, activates, verifies, deactivates, cleans}
use saas_admin.Licensing.Effects.{
  slots-dispatch, Effect, kept, touched, added, removed, Effect-activate, Effect-verify,
  Effect-deactivate, slots-granted, inserted_inv, count-touch,
}

-- The unique constraint of the table: a device holds at most one activation of a license.
abbrev pub OneSlot : List Activation → Type 0
OneSlot t = (license_id identifier : String) → count (same_slot license_id identifier) t ≤ 1

OneSlot-added :
    (a : Activation) (t : List Activation)
    → select (same_slot a.license_id a.identifier) t ≡ none
    → OneSlot t
    → OneSlot (a ∷ t)
unfolding count
OneSlot-added a t free o l i = elim (Bool-cases (same_slot l i a)) [
  | inl e ↦
      let p : a.license_id ≡ l = (eq_iff a.license_id l).0 (ground (arith, e)) in
      let q : a.identifier ≡ i = (eq_iff a.identifier i).0 (ground (arith, e)) in
      let z : count (same_slot l i) t ≡ 0 =
        count-eq-zero_of_select (same_slot l i) t (rw (sym p, sym q) free) in
      rw (e, z) (omega arith)
  | inr e ↦ rw e (omega (arith, o l i))
]

OneSlot-Effect : {t t' : List Activation} → Effect t t' → OneSlot t → OneSlot t'
unfolding touch_activation
OneSlot-Effect {t} kept o l i = o l i
OneSlot-Effect {t} (touched true now id) o l i =
    rw
      (count-update (same_slot l i) (λ a. a.id == id) (λ a. record a { last_verified = now }) t
        (λ a _. refl))
      (o l i)
OneSlot-Effect {t} (touched false now id) o l i = o l i
OneSlot-Effect {t} (added a free) o l i = OneSlot-added a t free o l i
OneSlot-Effect {t} (removed id) o l i =
    omega (arith, o l i, count-delete-le (same_slot l i) (λ a. a.id == id) t)

-- Whatever the requests do, in any order, no device comes to hold two activations of one license.
pub Runs-OneSlot : {w₀ w : World} → Runs w₀ w → OneSlot w₀.slots → OneSlot w.slots
Runs-OneSlot start o = o
Runs-OneSlot (activates call input r) o =
    OneSlot-Effect (Effect-activate call input _ _ refl) (Runs-OneSlot r o)
Runs-OneSlot (verifies call input r) o =
    OneSlot-Effect (Effect-verify call input _ _ refl) (Runs-OneSlot r o)
Runs-OneSlot (deactivates call input r) o =
    OneSlot-Effect (Effect-deactivate call input _ _ refl) (Runs-OneSlot r o)
Runs-OneSlot (cleans now e r) o = Runs-OneSlot r o

signed_id :
    (status : String) (lic : License) (o : Option String) {r : ActivateResult}
    → signed status lic o ≡ ok r
    → r.license_id ≡ lic.id
signed_id status lic none h = absurd (cc)
signed_id status lic (some token) h = ground arith

-- A reply that activates the device finds its slot in the table.
abbrev HoldsSlot : String → World × Result ActivateResult → Type 0
HoldsSlot i out =
    (r : ActivateResult) → out.1 ≡ ok r → 1 ≤ count (same_slot r.license_id i) out.0.slots

holds-new :
    (call : Call) (input : ActivateInput) (lic : License) (w : World) (o : ActivateOutcome)
    → activate_within_limit
        (λ n. call.io (4 + n))
        (new_activation call input lic)
        (max_activations lic)
        w.slots
      ≡ o
    → HoldsSlot input.identifier (activate_new call input lic w)
unfolding activate_new count
holds-new call input lic w (activated t) e r =
    let act = new_activation call input lic in
    let inv = inserted_inv (λ n. call.io (4 + n)) act (max_activations lic) w.slots t e in
    rw (e, activate_new, slots-granted, inv.0)
      (λ h. rw (signed_id "activated" lic _ h, eq_refl, eq_refl) (omega arith))
holds-new call input lic w limit_reached e r = rw (e, activate_new) (λ h. absurd (cc))
holds-new call input lic w not_activated e r = rw (e, activate_new) (λ h. absurd (cc))

find_activation_inv :
    (runs : Bool) (l i : String) (t : List Activation) {a : Activation}
    → find_activation runs l i t ≡ found a
    → select (same_slot l i) t ≡ some a
unfolding find_activation
find_activation_inv runs l i t h = ground arith

holds-located :
    (call : Call) (input : ActivateInput) (lic : License) (w : World) (u : Option AppError)
    (f : Found Activation)
    → assert_usable call.now lic ≡ u
    → find_activation (call.io 2) lic.id input.identifier w.slots ≡ f
    → HoldsSlot input.identifier (activate_located call input lic w)
unfolding activate_located
holds-located call input lic w (some x) f e₀ e₁ r = rw (e₀, activate_located) (λ h. absurd (cc))
holds-located call input lic w none (found a) e₀ e₁ r =
    let p = same_slot lic.id input.identifier in
    let c =
      count_pos_of_select p w.slots
        (find_activation_inv (call.io 2) lic.id input.identifier w.slots e₁) in
    rw (e₀, e₁, activate_located)
      (λ h.
        rw
          (
            signed_id "already_activated" lic _ h,
            count-touch p (call.io 3) call.now a.id w.slots (λ b. refl),
          )
          c)
holds-located call input lic w none no_rows e₀ e₁ r =
    rw (e₀, e₁, activate_located) (holds-new call input lic w _ refl r)
holds-located call input lic w none failed e₀ e₁ r =
    rw (e₀, e₁, activate_located) (holds-new call input lic w _ refl r)

pub activate-HoldsSlot :
    (call : Call) (input : ActivateInput) (w : World) (l : Located)
    → locate call input.license_key input.product_id input.ip_address "device activation" w ≡ l
    → HoldsSlot input.identifier (activate call input w)
unfolding activate
activate-HoldsSlot call input w (rejected x) e r = rw (e, activate) (λ h. absurd (cc))
activate-HoldsSlot call input w (penalised x) e r = rw (e, activate) (λ h. absurd (cc))
activate-HoldsSlot call input w (located lic) e r =
    rw (e, activate) (holds-located call input lic w _ _ refl refl r)

-- What an activation answers on a device that is known, and what it leaves of the activations.
abbrev pub Reused : Call → ActivateInput → License → World → World × Result ActivateResult → Type 0
Reused call input lic w out =
    (out.1 ≡ elim (assert_usable call.now lic) [
      | some e ↦ err e
      | none ↦ signed "already_activated" lic (sign_token call.crypto call.now lic input.identifier)
    ])
    × ((i : String) → count_activations i out.0.slots ≡ count_activations i w.slots)

-- The only row of a slot is gone with its id.
count-delete_only :
    (p : Activation → Bool) (t : List Activation) {a : Activation}
    → select p t ≡ some a
    → count p t ≤ 1
    → count p (delete (λ b. b.id == a.id) t) ≡ 0
unfolding select count delete
count-delete_only p [] h c = absurd (ground arith)
count-delete_only p (b ∷ t) {a = a} h c = elim (Bool-cases (p b)) [
  | inl e ↦
      let q : b ≡ a = ground (arith, h, e) in
      let s : b.id ≡ a.id = ap (λ x. x.id) q in
      let z = count-delete-le p (λ x. x.id == a.id) t in rw (s, eq_refl) (ground (arith, z, c, e))
  | inr e ↦ ground (arith, count-delete_only p t {a = a}, h, c, e)
]

freed-located :
    (call : Call) (input : VerifyInput) (lic : License) (w : World) (f : Found Activation)
    → find_activation (call.io 2) lic.id input.identifier w.slots ≡ f
    → OneSlot w.slots
    → (deactivate_located call input lic w).1 ≡ ok tt
    → count (same_slot lic.id input.identifier) (deactivate_located call input lic w).0.slots ≡ 0
unfolding deactivate_located delete_activation audit forgive
freed-located call input lic w no_rows e o = rw (e, deactivate_located) (λ h. absurd (cc))
freed-located call input lic w failed e o = rw (e, deactivate_located) (λ h. absurd (cc))
freed-located call input lic w (found a) e o = elim (Bool-cases (call.io 3)) [
  | inl b ↦
      rw (e, b, deactivate_located, slots-dispatch)
        (λ h.
          count-delete_only (same_slot lic.id input.identifier) w.slots
            (find_activation_inv (call.io 2) lic.id input.identifier w.slots e)
            (o lic.id input.identifier))
  | inr b ↦ rw (e, b, deactivate_located) (λ h. absurd (cc))
]

-- The license that an answer is about, if it was located.
abbrev pub Freed : Located → String → List Activation → Type 0
Freed (rejected e) i t = Bool.true ≡ Bool.false
Freed (penalised e) i t = Bool.true ≡ Bool.false
Freed (located lic) i t = count (same_slot lic.id i) t ≡ 0

Freed-deactivate :
    (call : Call) (input : VerifyInput) (w : World) (l : Located)
    → locate call input.license_key input.product_id input.ip_address "device deactivation" w ≡ l
    → OneSlot w.slots
    → (deactivate call input w).1 ≡ ok tt
    → Freed l input.identifier (deactivate call input w).0.slots
unfolding deactivate
Freed-deactivate call input w (rejected x) e o = rw (e, deactivate) (λ h. absurd (cc))
Freed-deactivate call input w (penalised x) e o = rw (e, deactivate) (λ h. absurd (cc))
Freed-deactivate call input w (located lic) e o =
    rw (e, deactivate) (freed-located call input lic w _ refl o)

-- A deactivation that answers with success located the license and left no activation of the device
-- on it, where the table kept its unique constraint.
pub deactivate_frees :
    (call : Call) (input : VerifyInput) (w : World)
    → OneSlot w.slots
    → (deactivate call input w).1 ≡ ok tt
    → Freed
        (locate call input.license_key input.product_id input.ip_address "device deactivation" w)
        input.identifier
        (deactivate call input w).0.slots
deactivate_frees call input w o h = Freed-deactivate call input w _ refl o h
