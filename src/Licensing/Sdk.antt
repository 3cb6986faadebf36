-- ===== src/Licensing/Sdk.antt =====
-- The lookup that the public SDK endpoints share: `loadLicenseForSDK` of
-- internal/service/license.go.
use saas_admin.Prelude.{
  ℕ, String, ◌≡◌, refl, ◌⊎◌, inl, inr, Bool, true, false, not, ◌&&◌, Option, none, some, List, ◌==◌,
  eq_iff, if◌then◌else◌,
}
use saas_admin.Apperr.{Result, ok, err, internal}
use saas_admin.Database.{Io, Found, found, no_rows, failed, db_error}
use saas_admin.Model.{Capability, Product, License, product_supports}
use saas_admin.Licensing.Rules.{license_not_found, is_license_usable}
use saas_admin.Licensing.Token.{Crypto}
use saas_admin.Licensing.Store.{find_license_by_key}

-- The empty capability is `none`.
abbrev supported : Option Product → Option Capability → Bool
supported prod none = true
supported none (some c) = false
supported (some prod) (some c) = product_supports prod.kind c

unfoldable pub sdk_license : ℕ → String → Option Capability → Bool → License → Result License
unfolding product_supports is_license_usable
sdk_license now product_id capability usability_required lic =
    if not (product_id == "") && not (lic.product_id == product_id)
    then err license_not_found
    else if not (supported lic.product capability)
    then err license_not_found
    else if usability_required && not (is_license_usable now lic)
    then err license_not_found
    else ok lic

-- Statements: 0 and 1.
unfoldable pub load_license_for_sdk :
    ℕ → Io → Crypto → String → String → Option Capability → Bool → List License → Result License
unfolding find_license_by_key sdk_license
load_license_for_sdk now io crypto key product_id capability usability_required licenses =
    elim (find_license_by_key crypto io key licenses) [
      | no_rows ↦ err license_not_found
      | failed ↦ err (internal db_error)
      | found lic ↦ sdk_license now product_id capability usability_required lic
    ]

-- What the lookup of `f`, the row of the license key, answers.
abbrev pub SdkAnswer : ℕ → String → Option Capability → Found License → Result License → Type 0
SdkAnswer now product_id capability f (err e) = (e ≡ license_not_found) ⊎ (e ≡ internal db_error)
SdkAnswer now product_id capability f (ok lic) =
    (f ≡ found lic)
    × ((product_id == "") ≡ false → lic.product_id ≡ product_id)
    × (supported lic.product capability ≡ true)
    × (is_license_usable now lic ≡ true)

answer-sdk_license :
    (now : ℕ) (product_id : String) (capability : Option Capability) (lic : License)
    (b₀ b₁ b₂ b₃ : Bool)
    → (product_id == "") ≡ b₀
    → (lic.product_id == product_id) ≡ b₁
    → supported lic.product capability ≡ b₂
    → is_license_usable now lic ≡ b₃
    → SdkAnswer now product_id capability
        (found lic)
        (sdk_license now product_id capability true lic)
unfolding sdk_license
answer-sdk_license now product_id capability lic false false b₂ b₃ e₀ e₁ e₂ e₃ =
    rw (e₀, e₁, sdk_license) (inl refl)
answer-sdk_license now product_id capability lic true b₁ false b₃ e₀ e₁ e₂ e₃ =
    rw (e₀, e₂, sdk_license) (inl refl)
answer-sdk_license now product_id capability lic false true false b₃ e₀ e₁ e₂ e₃ =
    rw (e₀, e₁, e₂, sdk_license) (inl refl)
answer-sdk_license now product_id capability lic true b₁ true false e₀ e₁ e₂ e₃ =
    rw (e₀, e₂, e₃, sdk_license) (inl refl)
answer-sdk_license now product_id capability lic false true true false e₀ e₁ e₂ e₃ =
    rw (e₀, e₁, e₂, e₃, sdk_license) (inl refl)
answer-sdk_license now product_id capability lic true b₁ true true e₀ e₁ e₂ e₃ =
    rw (e₀, e₂, e₃, sdk_license) (refl, (λ h. absurd (cc)), e₂, e₃)
answer-sdk_license now product_id capability lic false true true true e₀ e₁ e₂ e₃ =
    rw (e₀, e₁, e₂, e₃, sdk_license) (refl, (λ h. (eq_iff lic.product_id product_id).0 e₁), e₂, e₃)

sdk_by :
    (now : ℕ) (product_id : String) (capability : Option Capability) (io : Io) (crypto : Crypto)
    (key : String) (licenses : List License) (f : Found License)
    → find_license_by_key crypto io key licenses ≡ f
    → SdkAnswer now product_id capability f
        (load_license_for_sdk now io crypto key product_id capability true licenses)
unfolding load_license_for_sdk
sdk_by now product_id capability io crypto key licenses no_rows e =
    rw (e, load_license_for_sdk) (inl refl)
sdk_by now product_id capability io crypto key licenses failed e =
    rw (e, load_license_for_sdk) (inr refl)
sdk_by now product_id capability io crypto key licenses (found lic) e =
    rw (e, load_license_for_sdk)
      (answer-sdk_license now product_id capability lic _ _ _ _ refl refl refl refl)

-- A license that the lookup returns is the row of the key, is in the product's scope, of a product with the capability,
-- and usable now; and every refusal is the same 404 or an internal error.
pub load_license_for_sdk_lem :
    (now : ℕ) (io : Io) (crypto : Crypto) (key product_id : String) (capability : Option Capability)
    (licenses : List License)
    → SdkAnswer now product_id capability
        (find_license_by_key crypto io key licenses)
        (load_license_for_sdk now io crypto key product_id capability true licenses)
load_license_for_sdk_lem now io crypto key product_id capability licenses =
    sdk_by now product_id capability io crypto key licenses _ refl
