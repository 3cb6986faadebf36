-- ===== src/Licensing/Token.antt =====
-- The signed token of internal/service/license.go (`signToken`) and internal/license/token.go.
-- JSON, Ed25519, SHA-256 and the random nonce belong to Go's standard library and enter as the
-- record `Crypto`.
use saas_admin.Prelude.{ℕ, ◌+◌, ◌*◌, ◌/◌, String, Option, none, some, ltb, if◌then◌else◌}
use saas_admin.Model.{Status, License, day, second}
use saas_admin.Licensing.Rules.{Feature, effective_grace_days, entitlements}
use saas_admin.Prelude.Dict.{Dict}

-- The payload, but for the nonce that `Sign` draws.
pub record VerifyToken : Type 0 where
  pub license_id : String
  pub product_id : String
  pub plan_id : String
  pub status : Status
  pub identifier : String
  pub features : Dict Feature
  pub issued_at : ℕ
  pub expires_at : ℕ
  pub valid_until : ℕ
  pub grace_days : ℕ
  pub fingerprint : String

pub record Crypto : Type 0 where
  -- `license.HashKey`
  pub hash_key : String → String
  -- `license.Fingerprint`
  pub fingerprint : String → String → String
  -- `license.Sign`; `none` is an error
  pub sign : VerifyToken → Option String

unfoldable pub token_ttl_for : License → ℕ
token_ttl_for lic = elim lic.plan [
  | none ↦ 7 * day
  | some plan ↦ if ltb 0 plan.token_ttl_days then plan.token_ttl_days * day else 7 * day
]

-- The end of the license's term with its grace, if it has one.
unfoldable pub deadline : License → Option ℕ
unfolding effective_grace_days
deadline lic = elim lic.valid_until [
  | none ↦ none
  | some valid_until ↦ some (valid_until + effective_grace_days lic * day)
]

abbrev clamp : ℕ → Option ℕ → ℕ
clamp expires none = expires
clamp expires (some end) = if ltb end expires then end else expires

-- When the token that is issued at `now` expires, in nanoseconds.
unfoldable pub expiry : ℕ → License → ℕ
unfolding token_ttl_for deadline
expiry now lic = clamp (now + token_ttl_for lic) (deadline lic)

unfoldable pub build_token : Crypto → ℕ → License → String → VerifyToken
unfolding expiry effective_grace_days entitlements
build_token crypto now lic identifier = record {
  license_id = lic.id;
  product_id = lic.product_id;
  plan_id = lic.plan_id;
  status = lic.status;
  identifier = identifier;
  features = entitlements lic;
  issued_at = now / second;
  expires_at = expiry now lic / second;
  valid_until = elim lic.valid_until [ none ↦ 0 | some v ↦ v / second ];
  grace_days = effective_grace_days lic;
  fingerprint = crypto.fingerprint identifier lic.product_id;
}

unfoldable pub sign_token : Crypto → ℕ → License → String → Option String
unfolding build_token
sign_token crypto now lic identifier = crypto.sign (build_token crypto now lic identifier)
