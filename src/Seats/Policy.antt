-- ===== src/Seats/Policy.antt =====
-- What `AcceptSeatInvite` of internal/service/seats.go grants.
use saas_admin.Prelude.{
  ℕ, String, ◌≡◌, refl, ◌⊎◌, inl, inr, Bool, true, false, none, some, List, arith, ◌==◌, eq_refl,
  Bool-cases,
}
use saas_admin.Prelude.Table.{select, count, update, update-update, count-update_found}
use saas_admin.Apperr.{Result, ok, err, internal}
use saas_admin.Database.{Found, found, no_rows, failed, query, db_error}
use saas_admin.Model.{License}
use saas_admin.Seats.Table.{
  Seat, User, has_id, has_token, accept, open_invite, AcceptOutcome, invite_accepted,
  invite_invalid, invite_failed, accept_seat_invite, rollback_seat_accept,
}
use saas_admin.Seats.Limit.{PrimaryKey}
use saas_admin.Seats.Invite.{Accepted, Accepted-accept_seat_invite}
use saas_admin.Seats.{
  SeatState, SeatCall, AcceptSeatInviteResult, seat_invite_invalid, bad_standing, rolled_back,
  accepted_by, accept_invite,
}

abbrev pub is_accepted : Seat → Bool
is_accepted s = elim s.accepted_at [ none ↦ false | some t ↦ true ]

-- What an acceptance grants, or refuses.
abbrev pub Granted :
    SeatCall → String → SeatState → SeatState → Result AcceptSeatInviteResult → Type 0
Granted call token w w' (err e) =
    ((e ≡ seat_invite_invalid) ⊎ (e ≡ internal db_error))
    × (e ≡ seat_invite_invalid
        → call.io 7 ≡ true
        → count is_accepted w'.table ≡ count is_accepted w.table)
Granted call token w w' (ok r) =
    (s : Seat) × (lic : License) × (select (has_token (call.hash_token token)) w.table ≡ some s)
    × (open_invite call.now s ≡ true)
    × (select (λ (l : License). l.id == s.license_id) w.licenses ≡ some lic)
    × (bad_standing lic.status ≡ false)
    × (r.license_id ≡ s.license_id)
    × (r.role ≡ s.role)

-- An acceptance that is undone leaves the number of accepted seats.
count-rolled_back :
    (h : String) (now : ℕ) (user_id : String) (s : Seat) (t : List Seat)
    → PrimaryKey t
    → select (has_token h) t ≡ some s
    → open_invite now s ≡ true
    → count is_accepted (
        rolled_back
          (rollback_seat_accept true s.id (update (has_id s.id) (accept now user_id) t))
          (update (has_id s.id) (accept now user_id) t))
      ≡ count is_accepted t
unfolding rollback_seat_accept
count-rolled_back h now user_id s t k e o =
    let undo : Seat → Seat = λ r. record r { user_id = ""; accepted_at = none } in
    let both = update-update (has_id s.id) (accept now user_id) undo t (λ r. refl) in
    let z =
      count-update_found (has_token h) (has_id s.id) is_accepted (λ r. undo (accept now user_id r))
        t {a = s} e (eq_refl s.id) (k s.id) in
    let was : is_accepted s ≡ false = ground (arith, o) in rw both (ground (arith, z, was))

license_of_query :
    (runs : Bool) (id : String) (t : List License) {l : License}
    → query runs (select (λ (l : License). l.id == id) t) ≡ found l
    → select (λ (l : License). l.id == id) t ≡ some l
license_of_query runs id t h = ground arith

Granted-accepted_by :
    (call : SeatCall) (token : String) (user : User) (s : Seat) (users : List User) (w : SeatState)
    (f : Found License) (b : Bool)
    → PrimaryKey w.table
    → select (has_token (call.hash_token token)) w.table ≡ some s
    → open_invite call.now s ≡ true
    → query (call.io 6) (select (λ (l : License). l.id == s.license_id) w.licenses) ≡ f
    → call.io 7 ≡ b
    → let out =
        accepted_by call user
          (accept call.now user.id s)
          users
          (update (has_id s.id) (accept call.now user.id) w.table)
          w in
      Granted call token w out.0 out.1
unfolding accepted_by
Granted-accepted_by call token user s users w no_rows b k e o q r =
    rw (q, accepted_by) (inr refl, λ h. absurd (cc))
Granted-accepted_by call token user s users w failed b k e o q r =
    rw (q, accepted_by) (inr refl, λ h. absurd (cc))
Granted-accepted_by call token user s users w (found lic) b k e o q r =
    elim (Bool-cases (bad_standing lic.status)) [
      | inr n ↦
          rw (q, accepted_by, n)
            (s, lic, e, o, license_of_query (call.io 6) s.license_id w.licenses q, n, refl, refl)
      | inl n ↦
          rw (q, accepted_by, n)
            (
              inl refl,
              λ h x.
                  rw x (count-rolled_back (call.hash_token token) call.now user.id s w.table k e o),
            )
    ]

Granted-accept_invite :
    (call : SeatCall) (token : String) (w : SeatState) (out : AcceptOutcome)
    → PrimaryKey w.table
    → accept_seat_invite call.hash_token call.lower call.io call.now call.new_id token w.users
        w.table
      ≡ out
    → Accepted (call.hash_token token) call.now w.table out
    → Granted call token w (accept_invite call token w).0 (accept_invite call token w).1
unfolding accept_invite
Granted-accept_invite call token w invite_invalid k e a =
    rw (e, accept_invite) (inl refl, λ h x. refl)
Granted-accept_invite call token w invite_failed k e a =
    rw (e, accept_invite) (inr refl, λ h x. refl)
Granted-accept_invite call token w (invite_accepted user s' users t) k e (s, here, o, p, q) =
    rw (e, accept_invite, p, q)
      (Granted-accepted_by call token user s users w _ _ k here o refl refl)

-- An invitation is answered in three ways. With success: the token belonged to an open invitation, of
-- a license that is not suspended, revoked, canceled or expired, and the reply names the license and
-- the role of that seat. With the one error for invitations, in which case no seat was gained, if
-- the rollback runs. Or with an internal error. It assumes the table's primary key.
pub accept_invite-Granted :
    (call : SeatCall) (token : String) (w : SeatState)
    → PrimaryKey w.table
    → Granted call token w (accept_invite call token w).0 (accept_invite call token w).1
accept_invite-Granted call token w k = Granted-accept_invite call token w _ k refl (
    Accepted-accept_seat_invite call.hash_token call.lower call.io call.now call.new_id token
      w.users w.table _ _ _ refl refl refl)
