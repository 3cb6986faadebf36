-- ===== src/Licensing/Usability.antt =====
-- What the two usability checks and the signed token promise about one another.
use saas_admin.Prelude.{ℕ, ◌≤◌, ◌<◌, ◌≡◌, ◌≢◌, ◌↔◌, inl, inr, true, none, some, arith, Bool-cases}
use saas_admin.Model.{License}
use saas_admin.Licensing.Rules.{assert_usable, is_license_usable}
use saas_admin.Licensing.Token.{expiry, deadline}

-- The two checks agree at every instant but the last one of the grace period: `IsLicenseUsable`
-- holds exactly when `assertUsable` returns nil and the instant is not the end of the grace period.
pub is_license_usable_iff :
    (now : ℕ) (lic : License)
    → (is_license_usable now lic ≡ true)
      ↔ ((assert_usable now lic ≡ none) × (deadline lic ≢ some now))
unfolding is_license_usable assert_usable deadline
is_license_usable_iff now lic = (
  λ u. (ground arith, λ d. ground arith),
  λ h. elim (Bool-cases (is_license_usable now lic)) [
    | inl u ↦ u
    | inr u ↦ absurd (h.1 (grind (arith, h.0)))
  ],
)

-- Usability only ends: a license that is usable at some time was usable at every earlier one.
pub assert_usable_earlier :
    (now later : ℕ) (lic : License)
    → now ≤ later
    → assert_usable later lic ≡ none
    → assert_usable now lic ≡ none
unfolding assert_usable
assert_usable_earlier now later lic h u = ground arith

-- A token never outlives the license: until it expires, the license it was issued for is usable,
-- given that it is usable when the token is issued and does not change.
pub token_within_license :
    (now later : ℕ) (lic : License)
    → assert_usable now lic ≡ none
    → now ≤ later
    → later < expiry now lic
    → assert_usable later lic ≡ none
unfolding assert_usable expiry
token_within_license now later lic u h e = ground arith
