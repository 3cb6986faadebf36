-- ===== src/Licensing/Sample.antt =====
-- Concrete data for the tests: a license, and requests of two devices.
use saas_admin.Prelude.{ℕ, String, true, none, some, [], ◌∷◌}
use saas_admin.Database.{healthy}
use saas_admin.BruteForce.{new_brute_force_protection}
use saas_admin.Model.{active, hybrid, Product, Plan, License}
use saas_admin.Licensing.Token.{Crypto}
use saas_admin.Licensing.Service.{World, Call, ActivateInput, VerifyInput}

abbrev pub product : Product
product = record { id = "prod"; name = "Editor"; kind = hybrid }

abbrev pub plan : Plan
plan = record {
  id = "plan";
  name = "Team";
  product_id = "prod";
  trial_days = 0;
  stripe_price_id = "price";
  is_active = true;
  license_type = "subscription";
  max_activations = 2;
  grace_days = 7;
  license_model = "floating";
  floating_timeout = 0;
  token_ttl_days = 0;
  max_seats = 2;
  entitlements = [];
}

abbrev pub license : License
license = record {
  id = "lic";
  product_id = "prod";
  plan_id = "plan";
  email = "owner@example.com";
  license_key = "";
  key_hash = "KEY";
  stripe_customer_id = "cus";
  stripe_subscription_id = "sub";
  stripe_payment_intent_id = "";
  stripe_checkout_session_id = "";
  status = active;
  valid_until = none;
  canceled_at = none;
  suspended_at = none;
  past_due_at = none;
  updated_at = 0;
  external_customer_id = "";
  external_workspace_id = "";
  product = some product;
  plan = some plan;
}

-- A hash that keeps the key, and a signature that never fails.
abbrev pub crypto : Crypto
crypto = record { hash_key = λ key. key; fingerprint = λ i p. i; sign = λ token. some "signed" }

abbrev pub call : ℕ → String → Call
call now id = record { now = now; io = healthy; new_id = id; crypto = crypto }

abbrev pub empty_world : World
empty_world = record {
  licenses = license ∷ [];
  slots = [];
  failures = some (new_brute_force_protection 5 60 1800 300);
  has_webhook = true;
  audits = [];
  events = [];
}

abbrev pub device : String → ActivateInput
device identifier = record {
  license_key = "KEY";
  identifier = identifier;
  identifier_type = "";
  label = "";
  ip_address = "10.0.0.1";
  product_id = "prod";
}

abbrev pub check : String → VerifyInput
check identifier = record {
  license_key = "KEY";
  identifier = identifier;
  product_id = "prod";
  ip_address = "10.0.0.1";
}
