-- ===== src/Licensing/Replies.antt =====
-- What the replies of internal/service/license.go tell: `Verify` and the shared lookup.
use saas_admin.Prelude.{
  ◌≤◌, String, ◌≡◌, refl, ◌⊎◌, inl, inr, Bool, Option, none, some, List, arith, Bool-cases,
}
use saas_admin.Prelude.Table.{select, count, count_pos_of_select}
use saas_admin.Apperr.{AppError, Result, ok, err, internal}
use saas_admin.Database.{Found, found, no_rows, failed, db_error}
use saas_admin.Model.{ProductType, Product, Capability, activations, License, Activation}
use saas_admin.Licensing.Rules.{
  locked_out, license_not_found, feature_not_available, require_product_capability, assert_usable,
  effective_grace_days,
}
use saas_admin.Licensing.Token.{sign_token}
use saas_admin.Licensing.Store.{find_license_by_key, same_slot, find_activation}
use saas_admin.Licensing.Service.{
  World, Call, VerifyInput, VerifyResult, rejected, penalised, located, locate, admit, looked_up,
  blocked, verified, verify_located, verify,
}

-- The errors of the lookup that are not the generic 404.
abbrev pub Rejection : AppError → Type 0
Rejection e =
    (e ≡ locked_out)
    ⊎ (e ≡ internal db_error)
    ⊎ (e ≡ internal "product not loaded for capability check")
    ⊎ ((kind : ProductType) × (hint : String) × (e ≡ feature_not_available kind hint))

capability-Rejection :
    (p : Option Product) (c : Capability) (hint : String) (e : AppError)
    → require_product_capability p c hint ≡ some e
    → Rejection e
unfolding require_product_capability
capability-Rejection none c hint e h = inr (inr (inl (cc)))
capability-Rejection (some p) c hint e h = inr (inr (inr (p.kind, hint, ground arith)))

admit_by :
    (product_id hint : String) (lic : License) (o : Option AppError)
    → require_product_capability lic.product activations hint ≡ o
    → (e : AppError)
    → (admit product_id hint lic ≡ rejected e → Rejection e)
      × (admit product_id hint lic ≡ penalised e → e ≡ license_not_found)
unfolding admit
admit_by product_id hint lic none q e = (λ h. absurd (ground arith), λ h. ground arith)
admit_by product_id hint lic (some x) q e =
    (λ h. capability-Rejection lic.product activations hint e (ground arith), λ h. ground arith)

looked_up_errors :
    (product_id hint : String) (f : Found License) (e : AppError)
    → (looked_up product_id hint f ≡ rejected e → Rejection e)
      × (looked_up product_id hint f ≡ penalised e → e ≡ license_not_found)
unfolding looked_up
looked_up_errors product_id hint (found lic) e = admit_by product_id hint lic _ refl e
looked_up_errors product_id hint no_rows e = (λ h. cc, λ h. cc)
looked_up_errors product_id hint failed e = (λ h. inr (inl (cc)), λ h. cc)

-- A lookup that records the attempt as a failure ends with the generic 404; one that does not ends
-- with the lockout, an internal error, or the missing capability of the product.
pub locate_errors :
    (call : Call) (key product_id ip hint : String) (w : World) (e : AppError)
    → (locate call key product_id ip hint w ≡ rejected e → Rejection e)
      × (locate call key product_id ip hint w ≡ penalised e → e ≡ license_not_found)
unfolding locate
locate_errors call key product_id ip hint w e = elim (Bool-cases (blocked call.now ip w.failures)) [
  | inl b ↦ rw b (λ h. inl (cc), λ h. cc)
  | inr b ↦
      rw b (
        looked_up_errors product_id hint (find_license_by_key call.crypto call.io key w.licenses) e)
]

-- What `Verify` says of a license that it located.
abbrev pub VerifyReply : Call → VerifyInput → License → World → Result VerifyResult → Type 0
VerifyReply call input lic w (err e) = (e ≡ license_not_found) ⊎ (e ≡ internal "sign")
VerifyReply call input lic w (ok r) =
    (assert_usable call.now lic ≡ none)
    × (1 ≤ count (same_slot lic.id input.identifier) w.slots)
    × (r.status ≡ lic.status)
    × (r.valid_until ≡ lic.valid_until)
    × (r.grace_days ≡ effective_grace_days lic)
    × (sign_token call.crypto call.now lic input.identifier ≡ some r.token)

find_activation_inv :
    (runs : Bool) (license_id identifier : String) (t : List Activation) {a : Activation}
    → find_activation runs license_id identifier t ≡ found a
    → select (same_slot license_id identifier) t ≡ some a
unfolding find_activation
find_activation_inv runs license_id identifier t h = ground arith

verified_reply :
    (call : Call) (input : VerifyInput) (lic : License) (w : World) (o : Option String)
    → assert_usable call.now lic ≡ none
    → 1 ≤ count (same_slot lic.id input.identifier) w.slots
    → sign_token call.crypto call.now lic input.identifier ≡ o
    → VerifyReply call input lic w (verified lic o)
verified_reply call input lic w none u c s = inr refl
verified_reply call input lic w (some token) u c s = (u, c, refl, refl, refl, s)

located_reply :
    (call : Call) (input : VerifyInput) (lic : License) (w : World) (u : Option AppError)
    (f : Found Activation)
    → assert_usable call.now lic ≡ u
    → find_activation (call.io 2) lic.id input.identifier w.slots ≡ f
    → VerifyReply call input lic w (verify_located call input lic w).1
unfolding verify_located
located_reply call input lic w (some x) f e₀ e₁ = rw (e₀, verify_located) (inl refl)
located_reply call input lic w none no_rows e₀ e₁ = rw (e₀, e₁, verify_located) (inl refl)
located_reply call input lic w none failed e₀ e₁ = rw (e₀, e₁, verify_located) (inl refl)
located_reply call input lic w none (found a) e₀ e₁ =
    let slot = find_activation_inv (call.io 2) lic.id input.identifier w.slots e₁ in
    rw (e₀, e₁, verify_located)
      (verified_reply call input lic w _ e₀
        (count_pos_of_select (same_slot lic.id input.identifier) w.slots slot) refl)

-- Of a license that it located, `Verify` answers in three ways only: with the 404 of an unknown key,
-- with the internal error of a signature that failed, or with the envelope; and the envelope is
-- given only to a device that holds an activation, of a license usable now, and carries the
-- license's status, its end, the grace that the usability check grants, and the signed token.
pub verify_hides_state :
    (call : Call) (input : VerifyInput) (w : World) (lic : License)
    → locate call input.license_key input.product_id input.ip_address "device verification" w
      ≡ located lic
    → VerifyReply call input lic w (verify call input w).1
unfolding verify
verify_hides_state call input w lic e =
    rw (e, verify) (located_reply call input lic w _ _ refl refl)
