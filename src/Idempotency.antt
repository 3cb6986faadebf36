-- ===== src/Idempotency.antt =====
-- Retried requests: internal/middleware/idempotency.go over internal/store/idempotency.go. A body is
-- the list of its bytes.
pub mod Once
pub mod Replay
mod Tests
use saas_admin.Prelude.{
  ℕ, zero, suc, ◌+◌, ◌-◌, ◌*◌, ◌/◌, ◌%◌, ◌^◌, ◌≤◌, ◌<◌, min, max, String, ◌≡◌, refl, sym, ap, ◌∙◌,
  ◌≢◌, ◌↔◌, ◌⊎◌, inl, inr, Bool, true, false, not, ◌&&◌, ◌||◌, Option, none, some, List, [], ◌∷◌,
  ◌++◌, map, arith, ◌==◌, eq_iff, eq_refl, ltb, leb, nat_eq, if◌then◌else◌, ltb→lt, lt→ltb, leb→le,
  le→leb, Bool-cases, Option-cases, length, All,
}
use Prim.Native.Char.{code}
use Prim.Native.String
use mathlib.Core.List.{take}
use saas_admin.Prelude.Table.{select, update, delete}
use saas_admin.Model.{hour}
use saas_admin.Database.{Io, Found, found, no_rows, failed, query}

pub record IdempotencyKey : Type 0 where
  pub key : String
  pub endpoint : String
  pub body_hash : String
  pub response_status : ℕ
  pub response_body : List ℕ
  pub response_complete : Bool
  pub created_at : ℕ
  pub expires_at : ℕ

-- The primary key of the table.
pub record Slot : Type 0 where
  pub key : String
  pub endpoint : String

abbrev pub in_slot : Slot → IdempotencyKey → Bool
in_slot s r = r.key == s.key && r.endpoint == s.endpoint

abbrev pub fresh_row : ℕ → Slot → String → IdempotencyKey
fresh_row now s body_hash = record {
  key = s.key;
  endpoint = s.endpoint;
  body_hash = body_hash;
  response_status = 0;
  response_body = [];
  response_complete = false;
  created_at = now;
  expires_at = now + 24 * hour;
}

pub data Claim : Type 0 where
  -- (nil, nil): the caller runs the handler
  claimed : List IdempotencyKey → Claim
  existing : IdempotencyKey → Claim
  body_mismatch : Claim
  not_claimed : Claim

-- Statement 0 inserts into `t` unless the slot is taken, 1 reads the row that took it from `seen`, the
-- table as other statements have left it by then. A row that has vanished is treated as a free slot.
unfoldable pub idempotency_claim :
    Io → ℕ → Slot → String → List IdempotencyKey → List IdempotencyKey → Claim
idempotency_claim io now s body_hash t seen =
    if io 0
    then elim (select (in_slot s) t) [
      | none ↦ claimed (fresh_row now s body_hash ∷ t)
      | some taken ↦
          if io 1
          then elim (select (in_slot s) seen) [
            | none ↦ claimed t
            | some row ↦ if row.body_hash == body_hash then existing row else body_mismatch
          ]
          else not_claimed
    ]
    else not_claimed

abbrev pub max_response : ℕ
max_response = 65536

-- The first bytes of a body, for at most `n` bytes.
abbrev pub first_bytes : ℕ → List ℕ → List ℕ
first_bytes zero body = []
first_bytes (suc n) [] = []
first_bytes (suc n) (b ∷ body) = b ∷ first_bytes n body

abbrev pub completed : ℕ → List ℕ → IdempotencyKey → IdempotencyKey
completed status body r = record r {
  response_status = status;
  response_body = first_bytes max_response body;
  response_complete = true;
}

-- Its error is ignored by the caller.
unfoldable pub idempotency_complete :
    Bool → Slot → ℕ → List ℕ → List IdempotencyKey → List IdempotencyKey
idempotency_complete runs s status body t =
    if runs then update (in_slot s) (completed status body) t else t

unfoldable pub idempotency_abandon : Bool → Slot → List IdempotencyKey → List IdempotencyKey
idempotency_abandon runs s t =
    if runs then delete (λ r. in_slot s r && not r.response_complete) t else t

unfoldable pub idempotency_prune_expired : Bool → ℕ → List IdempotencyKey → List IdempotencyKey
idempotency_prune_expired runs now t = if runs then delete (λ r. ltb r.expires_at now) t else t

-- None of NUL, LF and CR.
abbrev plain : String → Bool
plain String.[] = true
plain (String.◌∷◌ c s) =
    not (nat_eq (code c) 0) && not (nat_eq (code c) 10) && not (nat_eq (code c) 13) && plain s

-- `len` of a string, the bytes of its UTF-8 text.
abbrev pub byte_len : String → ℕ
byte_len String.[] = 0
byte_len (String.◌∷◌ c s) =
    (if ltb (code c) 128
      then 1
      else if ltb (code c) 2048
      then 2
      else if ltb (code c) 65536
      then 3
      else 4)
    + byte_len s

unfoldable pub valid_idempotency_key : String → Bool
valid_idempotency_key s = leb 1 (byte_len s) && leb (byte_len s) 256 && plain s

-- A request as the middleware sees it. `body` is `none` if it cannot be read.
pub record Request : Type 0 where
  pub is_post : Bool
  pub idempotency_key : String
  pub body : Option (List ℕ)
  pub full_path : String
  pub url_path : String

pub data Answer : Type 0 where
  -- the handler runs, outside the layer or as the owner of the slot
  passed : Answer
  owner : Slot → Answer
  -- answers without the handler
  invalid_key body_unreadable body_too_large key_conflict internal_error in_flight : Answer
  replayed : ℕ → List ℕ → Answer

abbrev pub max_body : ℕ
max_body = 256 * 1024

abbrev pub endpoint_of : Request → String
endpoint_of req = if req.full_path == "" then req.url_path else req.full_path

abbrev pub slot_of : Request → Slot
slot_of req = record { key = req.idempotency_key; endpoint = endpoint_of req }

unfoldable pub answer_claim : Slot → Claim → List IdempotencyKey → List IdempotencyKey × Answer
answer_claim s (claimed t') t = (t', owner s)
answer_claim s (existing row) t =
    (t, if row.response_complete then replayed row.response_status row.response_body else in_flight)
answer_claim s body_mismatch t = (t, key_conflict)
answer_claim s not_claimed t = (t, internal_error)

-- The middleware up to `c.Next()`; `sha` is SHA-256 in hexadecimal. The table is the one after the
-- INSERT, on `t`; the SELECT sees `seen`.
unfoldable pub idempotency :
    (List ℕ → String)
    → Io
    → ℕ
    → Request
    → List IdempotencyKey
    → List IdempotencyKey
    → List IdempotencyKey × Answer
unfolding answer_claim idempotency_claim valid_idempotency_key
idempotency sha io now req t seen =
    if not req.is_post || (req.idempotency_key == "")
    then (t, passed)
    else if not (valid_idempotency_key req.idempotency_key)
    then (t, invalid_key)
    else elim req.body [
      | none ↦ (t, body_unreadable)
      | some body ↦
          if ltb max_body (length body)
          then (t, body_too_large)
          else answer_claim (slot_of req) (idempotency_claim io now (slot_of req) (sha body) t seen)
              t
    ]

-- What the handler left: `none` is a status that was never set (a panic).
pub record Response : Type 0 where
  pub status : Option ℕ
  pub body : List ℕ

-- The deferred function.
unfoldable pub finish : Bool → Slot → Response → List IdempotencyKey → List IdempotencyKey
unfolding idempotency_abandon idempotency_complete
finish runs s response t = elim response.status [
  | none ↦ idempotency_abandon runs s t
  | some status ↦
      if leb 500 status
      then idempotency_abandon runs s t
      else idempotency_complete runs s status response.body t
]
