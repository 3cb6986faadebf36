-- ===== src/Floating.antt =====
-- Floating licenses: internal/service/floating.go over internal/store/floating.go. A request reads
-- the clock once, for the service and for the database's `now()`.
pub mod Limit
pub mod Expired
pub mod Cleanup
mod Tests
use saas_admin.Prelude.{
  ℕ, zero, suc, ◌+◌, ◌-◌, ◌*◌, ◌/◌, ◌%◌, ◌^◌, ◌≤◌, ◌<◌, min, max, String, ◌≡◌, refl, sym, ap, ◌∙◌,
  ◌≢◌, ◌↔◌, ◌⊎◌, inl, inr, Bool, true, false, not, ◌&&◌, ◌||◌, Option, none, some, List, [], ◌∷◌,
  ◌++◌, map, arith, ◌==◌, eq_iff, eq_refl, ltb, leb, nat_eq, if◌then◌else◌, ltb→lt, lt→ltb, leb→le,
  le→leb, Bool-cases, Option-cases, length, All,
}
use saas_admin.Prelude.Table.{select, count, update, delete}
use saas_admin.Apperr.{Result, ok, err, internal, conflict, with_details, not_found, number}
use saas_admin.Database.{Io, Found, found, query, db_error}
use saas_admin.Model.{activations, License, Plan, second}
use saas_admin.Licensing.Rules.{license_not_found}
use saas_admin.Licensing.Sdk.{load_license_for_sdk}
use saas_admin.Licensing.Service.{Call}

pub record FloatingSession : Type 0 where
  pub id : String
  pub license_id : String
  pub identifier : String
  pub label : String
  pub ip_address : String
  pub checked_out : ℕ
  pub expires_at : ℕ
  pub heartbeat : ℕ

-- The two tables that the service uses.
pub record FloatingState : Type 0 where
  pub licenses : List License
  pub sessions : List FloatingSession

-- license_id = ? AND expires_at > now()
abbrev pub live : ℕ → String → FloatingSession → Bool
live now license_id s = s.license_id == license_id && ltb now s.expires_at

-- The columns of the table's unique constraint.
abbrev pub same_holder : String → String → FloatingSession → Bool
same_holder license_id identifier s = s.license_id == license_id && s.identifier == identifier

abbrev pub held_now : ℕ → String → String → FloatingSession → Bool
held_now now license_id identifier s = same_holder license_id identifier s && ltb now s.expires_at

unfoldable pub count_active_floating : ℕ → String → List FloatingSession → ℕ
count_active_floating now license_id = count (live now license_id)

pub data CheckOutOutcome : Type 0 where
  -- the session's id, the table, whether the session is new
  checked_out : String → List FloatingSession → Bool → CheckOutOutcome
  floating_limit_reached : CheckOutOutcome
  not_checked_out : CheckOutOutcome

abbrev pub unused : Option FloatingSession → Bool
unused none = true
unused (some s) = false

-- No live session of the device: 2 locks the license row, 3 counts, 4 inserts (which the unique
-- constraint may refuse), 5 commits.
unfoldable pub take_session : Io → ℕ → FloatingSession → ℕ → List FloatingSession → CheckOutOutcome
unfolding count_active_floating
take_session io now sess max_sessions t =
    if io 2 && io 3
    then if leb max_sessions (count_active_floating now sess.license_id t)
      then floating_limit_reached
      else if io 4 && unused (select (same_holder sess.license_id sess.identifier) t) && io 5
      then checked_out sess.id (sess ∷ t) true
      else not_checked_out
    else not_checked_out

abbrev pub refresh : ℕ → FloatingSession → FloatingSession → FloatingSession
refresh now sess s = record s {
  heartbeat = now;
  expires_at = sess.expires_at;
  ip_address = sess.ip_address;
  label = sess.label;
}

-- Statement 0 begins, 1 looks for a live session; 2 refreshes it and 3 commits.
unfoldable pub check_out_floating_with_limit :
    Io → ℕ → FloatingSession → ℕ → List FloatingSession → CheckOutOutcome
unfolding take_session
check_out_floating_with_limit io now sess max_sessions t =
    if io 0
    then elim (query (io 1) (select (held_now now sess.license_id sess.identifier) t)) [
      | found s ↦
          if not (s.id == "")
          then if io 2 && io 3
            then checked_out s.id (update (λ r. r.id == s.id) (refresh now sess) t) false
            else not_checked_out
          else take_session io now sess max_sessions t
      | _ ↦ take_session io now sess max_sessions t
    ]
    else not_checked_out

-- `none` is an error, here and below.
unfoldable pub check_in_floating :
    Bool → String → String → List FloatingSession → Option (List FloatingSession)
check_in_floating runs license_id identifier t =
    if runs then some (delete (same_holder license_id identifier) t) else none

unfoldable pub heartbeat_floating :
    Bool → ℕ → String → String → ℕ → List FloatingSession → Option (List FloatingSession)
heartbeat_floating runs now license_id identifier new_expiry t =
    if runs
    then some (
        update (same_holder license_id identifier)
          (λ s. record s { heartbeat = now; expires_at = new_expiry }) t)
    else none

unfoldable pub clean_expired_floating :
    Bool → ℕ → List FloatingSession → Option (List FloatingSession)
clean_expired_floating runs now t =
    if runs then some (delete (λ s. leb s.expires_at now) t) else none

pub record CheckOutInput : Type 0 where
  pub license_key : String
  pub identifier : String
  pub label : String
  pub product_id : String
  pub ip_address : String

pub record CheckOutResult : Type 0 where
  pub session_id : String
  pub expires_at : ℕ
  pub active : ℕ
  pub max : ℕ

abbrev pub minutes : ℕ
minutes = 60 * second

-- Minutes; 30 unless the plan has a positive timeout.
abbrev pub floating_timeout : Plan → ℕ
floating_timeout plan = if ltb 0 plan.floating_timeout then plan.floating_timeout else 30

-- The count that a reply shows: 0 when its statement fails.
abbrev pub shown : Bool → ℕ → String → List FloatingSession → ℕ
shown runs now license_id t = if runs then count (live now license_id) t else 0

abbrev pub new_session : Call → CheckOutInput → License → Plan → FloatingSession
new_session call input lic plan = record {
  id = call.new_id;
  license_id = lic.id;
  identifier = input.identifier;
  label = input.label;
  ip_address = input.ip_address;
  checked_out = call.now;
  expires_at = call.now + floating_timeout plan * minutes;
  heartbeat = call.now;
}

-- Statements 2 to 7 are the transaction, 8 the count for the reply.
unfoldable pub check_out_located :
    Call → CheckOutInput → License → Plan → FloatingState → FloatingState × Result CheckOutResult
unfolding check_out_floating_with_limit
check_out_located call input lic plan w =
    let sess = new_session call input lic plan in
    elim (check_out_floating_with_limit (λ n. call.io (2 + n)) call.now sess plan.max_activations
      w.sessions) [
        | floating_limit_reached ↦ (
          w,
          err (
              with_details (conflict "FLOATING_LIMIT" "all floating sessions are in use") (
                ("active", number (shown (call.io 8) call.now lic.id w.sessions))
                ∷ ("max", number plan.max_activations)
                ∷ [])),
        )
        | not_checked_out ↦ (w, err (internal db_error))
        | checked_out id t fresh ↦ (
          record w { sessions = t },
          ok (record {
            session_id = id;
            expires_at = sess.expires_at;
            active = shown (call.io 8) call.now lic.id t;
            max = plan.max_activations;
          }),
        )
      ]

abbrev pub floating_plan : License → Option Plan
floating_plan lic = elim lic.plan [
  | none ↦ none
  | some plan ↦ if plan.license_model == "floating" then some plan else none
]

unfoldable pub check_out :
    Call → CheckOutInput → FloatingState → FloatingState × Result CheckOutResult
unfolding check_out_located load_license_for_sdk
check_out call input w =
    elim (load_license_for_sdk call.now call.io call.crypto input.license_key input.product_id
      (some activations) true w.licenses) [
        | err e ↦ (w, err e)
        | ok lic ↦ elim (floating_plan lic) [
          | none ↦ (w, err license_not_found)
          | some plan ↦ check_out_located call input lic plan w
        ]
      ]

-- Statement 2 deletes.
unfoldable pub check_in :
    Call → String → String → String → FloatingState → FloatingState × Result (Unit {0})
unfolding load_license_for_sdk check_in_floating
check_in call key identifier product_id w =
    elim (load_license_for_sdk call.now call.io call.crypto key product_id (some activations) true
      w.licenses) [
        | err e ↦ (w, err e)
        | ok lic ↦ elim (check_in_floating (call.io 2) lic.id identifier w.sessions) [
          | none ↦ (w, err (internal db_error))
          | some t ↦ (record w { sessions = t }, ok tt)
        ]
      ]

abbrev pub heartbeat_timeout : Option Plan → ℕ
heartbeat_timeout none = 30
heartbeat_timeout (some plan) = floating_timeout plan

abbrev pub heartbeat_max : Option Plan → ℕ
heartbeat_max none = 3
heartbeat_max (some plan) = plan.max_activations

-- Statement 2 updates, 3 counts.
unfoldable pub heartbeat_located :
    Call → String → License → FloatingState → FloatingState × Result CheckOutResult
unfolding heartbeat_floating
heartbeat_located call identifier lic w =
    let new_expiry = call.now + heartbeat_timeout lic.plan * minutes in
    elim (heartbeat_floating (call.io 2) call.now lic.id identifier new_expiry w.sessions) [
      | none ↦ (w, err (not_found "SESSION" identifier))
      | some t ↦ (
        record w { sessions = t },
        ok (record {
          session_id = "";
          expires_at = new_expiry;
          active = shown (call.io 3) call.now lic.id t;
          max = heartbeat_max lic.plan;
        }),
      )
    ]

unfoldable pub heartbeat :
    Call → String → String → String → FloatingState → FloatingState × Result CheckOutResult
unfolding load_license_for_sdk heartbeat_located
heartbeat call key identifier product_id w =
    elim (load_license_for_sdk call.now call.io call.crypto key product_id (some activations) true
      w.licenses) [ err e ↦ (w, err e) | ok lic ↦ heartbeat_located call identifier lic w ]

-- A round of `StartCleanupLoop`.
unfoldable pub clean_expired : Call → FloatingState → FloatingState
unfolding clean_expired_floating
clean_expired call w = elim (clean_expired_floating (call.io 0) call.now w.sessions) [
  | none ↦ w
  | some t ↦ record w { sessions = t }
]
