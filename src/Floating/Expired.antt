-- ===== src/Floating/Expired.antt =====
-- Sessions that have expired and that the cleanup has not removed yet
-- (internal/service/floating.go, `Heartbeat` and `CheckOut`).
use saas_admin.Prelude.{
  ℕ, suc, ◌+◌, ◌*◌, ◌≤◌, ◌<◌, String, ◌≡◌, refl, Bool, true, false, ◌&&◌, Option, none, some, List,
  arith,
}
use saas_admin.Prelude.Table.{
  select, count, count-eq-zero_of_select, select-eq-some, count-update_found, select-none_of_only,
  update-none,
}
use saas_admin.Apperr.{ok, err, internal}
use saas_admin.Database.{Io, db_error}
use saas_admin.Model.{License, Plan, activations}
use saas_admin.Licensing.Sdk.{load_license_for_sdk}
use saas_admin.Licensing.Service.{Call}
use saas_admin.Floating.{
  FloatingSession, FloatingState, live, same_holder, held_now, count_active_floating,
  not_checked_out, unused, take_session, check_out_floating_with_limit, heartbeat_floating,
  CheckOutInput, minutes, shown, new_session, check_out_located, floating_plan, check_out,
  heartbeat_timeout, heartbeat_max, heartbeat_located, heartbeat,
}

-- The unique constraint of the table.
abbrev pub OneHolder : List FloatingSession → Type 0
OneHolder t = (license_id identifier : String) → count (same_holder license_id identifier) t ≤ 1

-- A heartbeat of a session that does not exist is answered like one that does: with success, and the
-- table is as it was.
pub heartbeat_missing :
    (call : Call) (key identifier product_id : String) (w : FloatingState) (lic : License)
    → load_license_for_sdk call.now call.io call.crypto key product_id
        (some activations)
        true
        w.licenses
      ≡ ok lic
    → call.io 2 ≡ true
    → select (same_holder lic.id identifier) w.sessions ≡ none
    → heartbeat call key identifier product_id w ≡ (
      w,
      ok (record {
        session_id = "";
        expires_at = call.now + heartbeat_timeout lic.plan * minutes;
        active = shown (call.io 3) call.now lic.id w.sessions;
        max = heartbeat_max lic.plan;
      }),
    )
unfolding heartbeat heartbeat_located heartbeat_floating
heartbeat_missing call key identifier product_id w lic e runs n =
    let z =
      update-none (same_holder lic.id identifier)
        (λ s. record s {
          heartbeat = call.now;
          expires_at = call.now + heartbeat_timeout lic.plan * minutes;
        })
        w.sessions (count-eq-zero_of_select (same_holder lic.id identifier) w.sessions n) in
    rw (e, runs, heartbeat, heartbeat_located, heartbeat_floating, z) refl

timeout_pos : (plan : Option Plan) → 1 ≤ heartbeat_timeout plan
timeout_pos none = omega arith
timeout_pos (some plan) = ground arith

-- A heartbeat of a session that has expired makes it live again without looking at the limit: it adds
-- one live session to the license, however many there are.
pub heartbeat_revives :
    (call : Call) (key identifier product_id : String) (w : FloatingState) (lic : License)
    (s : FloatingSession)
    → OneHolder w.sessions
    → load_license_for_sdk call.now call.io call.crypto key product_id
        (some activations)
        true
        w.licenses
      ≡ ok lic
    → call.io 2 ≡ true
    → select (same_holder lic.id identifier) w.sessions ≡ some s
    → s.expires_at ≤ call.now
    → count_active_floating call.now lic.id (heartbeat call key identifier product_id w).0.sessions
      ≡ suc (count_active_floating call.now lic.id w.sessions)
unfolding heartbeat heartbeat_located heartbeat_floating count_active_floating
heartbeat_revives call key identifier product_id w lic s o e runs found_s old =
    let p = same_holder lic.id identifier in
    let here : p s ≡ true = select-eq-some p w.sessions found_s in
    let f : FloatingSession → FloatingSession = λ r. record r {
      heartbeat = call.now;
      expires_at = call.now + heartbeat_timeout lic.plan * minutes;
    } in
    let z =
      count-update_found p p (live call.now lic.id) f w.sessions {a = s} found_s here
        (o lic.id identifier) in
    let was : live call.now lic.id s ≡ false = ground (arith, old) in
    let is : live call.now lic.id (f s) ≡ true = ground (arith, here, timeout_pos lic.plan) in
    rw (e, runs, heartbeat, heartbeat_located, heartbeat_floating) (ground (arith, z, was, is))

no_session :
    (io : Io) (now : ℕ) (sess : FloatingSession) (max_sessions : ℕ) (t : List FloatingSession)
    (b : Bool)
    → (io 2 && io 3) ≡ b
    → unused (select (same_holder sess.license_id sess.identifier) t) ≡ false
    → count_active_floating now sess.license_id t < max_sessions
    → take_session io now sess max_sessions t ≡ not_checked_out
unfolding take_session
no_session io now sess max_sessions t false e u room = rw (e, take_session) refl
no_session io now sess max_sessions t true e u room = ground (arith, e, u, room)

no_refresh :
    (io : Io) (now : ℕ) (sess : FloatingSession) (max_sessions : ℕ) (t : List FloatingSession)
    → select (held_now now sess.license_id sess.identifier) t ≡ none
    → take_session io now sess max_sessions t ≡ not_checked_out
    → check_out_floating_with_limit io now sess max_sessions t ≡ not_checked_out
unfolding check_out_floating_with_limit
no_refresh io now sess max_sessions t n e = ground (arith, n, e)

-- A device whose session has expired cannot check out again before the cleanup has removed the row,
-- though the license has a session to spare: the insert meets the unique constraint, the answer is
-- an internal error, and the tables are as they were.
pub check_out_expired :
    (call : Call) (input : CheckOutInput) (w : FloatingState) (lic : License) (plan : Plan)
    (s : FloatingSession)
    → OneHolder w.sessions
    → load_license_for_sdk call.now call.io call.crypto input.license_key input.product_id
        (some activations)
        true
        w.licenses
      ≡ ok lic
    → floating_plan lic ≡ some plan
    → select (same_holder lic.id input.identifier) w.sessions ≡ some s
    → s.expires_at ≤ call.now
    → count_active_floating call.now lic.id w.sessions < plan.max_activations
    → check_out call input w ≡ (w, err (internal db_error))
unfolding check_out check_out_located
check_out_expired call input w lic plan s o e m found_s old room =
    let sess = new_session call input lic plan in
    let io : Io = λ n. call.io (2 + n) in
    let here : select (held_now call.now lic.id input.identifier) w.sessions ≡ none =
      select-none_of_only (held_now call.now lic.id input.identifier)
        (same_holder lic.id input.identifier) w.sessions {a = s} (λ r h. ground (arith, h)) found_s
        (o lic.id input.identifier) (ground (arith, old)) in
    let none_new =
      no_session io call.now sess plan.max_activations w.sessions _ refl (rw found_s refl) room in
    let failed_out = no_refresh io call.now sess plan.max_activations w.sessions here none_new in
    rw (e, check_out, m, check_out_located, failed_out) refl
