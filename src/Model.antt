-- ===== src/Model.antt =====
-- internal/model/model.go: the rows that the services read and write. A time is a number of
-- nanoseconds since the epoch; a nullable column is an option. The integers of a plan are natural
-- numbers: validatePlanNumericBounds of internal/handler/admin.go refuses negative ones.
use saas_admin.Prelude.{ℕ, ◌*◌, String, Bool, true, false, Option, List}

pub data Status : Type 0 where
  active trialing past_due canceled expired suspended revoked : Status
  -- any other text of the column
  unknown : String → Status

pub data ProductType : Type 0 where
  desktop saas hybrid : ProductType
  other : String → ProductType

pub data Capability : Type 0 where
  activations seats releases : Capability

unfoldable pub product_supports : ProductType → Capability → Bool
product_supports desktop activations = true
product_supports desktop releases = true
product_supports desktop seats = false
product_supports saas seats = true
product_supports saas activations = false
product_supports saas releases = false
product_supports hybrid c = true
product_supports (other t) c = false

pub record Product : Type 0 where
  pub id : String
  pub name : String
  pub kind : ProductType

pub record Entitlement : Type 0 where
  pub feature : String
  pub value_type : String
  pub value : String
  pub quota_period : String
  pub stripe_meter_event_name : String

pub record Plan : Type 0 where
  pub id : String
  pub product_id : String
  pub name : String
  pub license_type : String
  pub trial_days : ℕ
  pub stripe_price_id : String
  pub is_active : Bool
  pub max_activations : ℕ
  pub grace_days : ℕ
  pub license_model : String
  pub floating_timeout : ℕ
  pub token_ttl_days : ℕ
  pub max_seats : ℕ
  pub entitlements : List Entitlement

pub record License : Type 0 where
  pub id : String
  pub product_id : String
  pub plan_id : String
  pub email : String
  pub license_key : String
  pub key_hash : String
  pub stripe_customer_id : String
  pub stripe_subscription_id : String
  pub stripe_payment_intent_id : String
  pub stripe_checkout_session_id : String
  pub status : Status
  pub valid_until : Option ℕ
  pub canceled_at : Option ℕ
  pub suspended_at : Option ℕ
  pub past_due_at : Option ℕ
  pub updated_at : ℕ
  pub external_customer_id : String
  pub external_workspace_id : String
  pub product : Option Product
  pub plan : Option Plan

pub record Activation : Type 0 where
  pub id : String
  pub license_id : String
  pub identifier : String
  pub identifier_type : String
  pub label : String
  pub ip_address : String
  pub last_verified : ℕ

-- The fields of an audit row but its id, its time and its change set.
pub record AuditLog : Type 0 where
  pub entity : String
  pub entity_id : String
  pub action : String
  pub actor_type : String

-- A webhook event handed to the dispatcher: the product, the event and the license it is about.
pub record Event : Type 0 where
  pub product_id : String
  pub event : String
  pub license_id : String

abbrev pub second : ℕ
second = 1000000000

abbrev pub hour : ℕ
hour = 3600 * second

abbrev pub day : ℕ
day = 24 * hour
