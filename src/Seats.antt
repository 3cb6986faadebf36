-- ===== src/Seats.antt =====
-- Seats of a license: internal/service/seats.go over internal/store/seats.go. The normalisation of an
-- e-mail address, its parser, the comparison without case and the token's hash are parameters.
pub mod Table
pub mod Limit
pub mod Invite
pub mod Policy
mod Tests
use saas_admin.Prelude.{
  ℕ, zero, suc, ◌+◌, ◌-◌, ◌*◌, ◌/◌, ◌%◌, ◌^◌, ◌≤◌, ◌<◌, min, max, String, ◌≡◌, refl, sym, ap, ◌∙◌,
  ◌≢◌, ◌↔◌, ◌⊎◌, inl, inr, Bool, true, false, not, ◌&&◌, ◌||◌, Option, none, some, List, [], ◌∷◌,
  ◌++◌, map, arith, ◌==◌, eq_iff, eq_refl, ltb, leb, nat_eq, if◌then◌else◌, ltb→lt, lt→ltb, leb→le,
  le→leb, Bool-cases, Option-cases, length, All,
}
use Prim.Native.String.{len}
use saas_admin.Prelude.Table.{select}
use saas_admin.Apperr.{
  AppError, Result, ok, err, new, bad_request, internal, conflict, not_found, with_details, number,
}
use saas_admin.Database.{Io, Found, found, no_rows, failed, query, db_error}
use saas_admin.Model.{
  Status, suspended, revoked, canceled, expired, seats, License, AuditLog, Event, day,
}
use saas_admin.Licensing.Token.{Crypto}
use saas_admin.Licensing.Sdk.{load_license_for_sdk}
use saas_admin.Seats.Table.{
  Seat, User, SeatAddOutcome, seat_created, seat_restored, seat_existed, seat_limit_reached,
  seat_not_added, has_id, count_active_seats, add_seat_within_limit, AcceptOutcome, invite_accepted,
  invite_invalid, invite_failed, accept_seat_invite, rollback_seat_accept, remove_seat,
}

-- The tables, the audit rows and the webhook events, newest first, and the invitations that were
-- mailed: the address and the token.
pub record SeatState : Type 0 where
  pub licenses : List License
  pub users : List User
  pub table : List Seat
  pub audits : List AuditLog
  pub events : List Event
  pub mails : List (String × String)

-- `new_token` is empty if the random generator failed.
pub record SeatCall : Type 0 where
  pub now : ℕ
  pub io : Io
  pub new_id : String
  pub new_token : String
  pub crypto : Crypto
  pub hash_token : String → String
  -- strings.ToLower(strings.TrimSpace(…)), the LOWER of SQL, strings.EqualFold and the address of
  -- mail.ParseAddress
  pub normalise : String → String
  pub lower : String → String
  pub equal_fold : String → String → Bool
  pub parse_address : String → Option String
  pub contains_at : String → Bool
  pub mail_configured : Bool

pub record AddSeatInput : Type 0 where
  pub license_key : String
  pub email : String
  pub role : String
  pub product_id : String

abbrev pub invalid_email : AppError
invalid_email = bad_request "invalid email format"

unfoldable pub validate_email : SeatCall → String → Option AppError
validate_email call email =
    if email == ""
    then some (bad_request "email is required")
    else if ltb 254 (len email)
    then some (bad_request "email is too long")
    else elim (call.parse_address email) [
      | none ↦ some invalid_email
      | some address ↦ if call.contains_at address then none else some invalid_email
    ]

abbrev seat_event : String → License → Event
seat_event event lic = record { product_id = lic.product_id; event = event; license_id = lic.id }

abbrev seat_audit : String → String → AuditLog
seat_audit id action = record {
  entity = "seat";
  entity_id = id;
  action = action;
  actor_type = "portal_user";
}

abbrev max_seats_of : License → ℕ
max_seats_of lic = elim lic.plan [ none ↦ 0 | some plan ↦ plan.max_seats ]

abbrev pub invited : SeatCall → String → String → License → Seat
invited call email role lic = record {
  id = call.new_id;
  license_id = lic.id;
  user_id = "";
  email = email;
  role = role;
  accepted_at = none;
  removed_at = none;
  invite_token_hash = call.hash_token call.new_token;
  invite_expires_at = some (call.now + 7 * day);
}

-- A new or restored seat: the event, the mail, the audit row.
abbrev pub announced : SeatCall → String → License → Seat → List Seat → SeatState → SeatState
announced call email lic s t w = record w {
  table = t;
  events = seat_event "seat.added" lic ∷ w.events;
  mails = if call.mail_configured then (email, call.new_token) ∷ w.mails else w.mails;
  audits = seat_audit s.id "seat_invited" ∷ w.audits;
}

-- Statements 2 to 8 are the transaction, 9 the count for the error's details.
unfoldable pub add_seat_located :
    SeatCall → String → String → License → SeatState → SeatState × Result Seat
unfolding add_seat_within_limit
add_seat_located call email role lic w =
    if call.new_token == ""
    then (w, err (internal "invite token generation failed"))
    else elim (add_seat_within_limit (λ n. call.io (2 + n)) (invited call email role lic)
        (max_seats_of lic) w.table) [
          | seat_limit_reached ↦ (
            w,
            err (
                with_details (conflict "SEAT_LIMIT" "maximum seats reached") (
                  ("max", number (max_seats_of lic))
                  ∷ ("current", number (if call.io 9 then count_active_seats lic.id w.table else 0))
                  ∷ [])),
          )
          | seat_not_added ↦ (w, err (internal db_error))
          | seat_existed s t ↦
              (record w { table = t; audits = seat_audit s.id "seat_invited" ∷ w.audits }, ok s)
          | seat_created s t ↦ (announced call email lic s t w, ok s)
          | seat_restored s t ↦ (announced call email lic s t w, ok s)
        ]

abbrev default_role : String → String
default_role role = if role == "" then "member" else role

unfoldable pub add_seat : SeatCall → AddSeatInput → SeatState → SeatState × Result Seat
unfolding validate_email load_license_for_sdk add_seat_located
add_seat call input w =
    let email = call.normalise input.email in
    let role = default_role input.role in
    elim (validate_email call email) [
      | some e ↦ (w, err e)
      | none ↦
          if not (role == "admin") && not (role == "member")
          then (w, err (bad_request "role must be admin or member"))
          else elim (load_license_for_sdk call.now call.io call.crypto input.license_key
              input.product_id (some seats) true w.licenses) [
                | err e ↦ (w, err e)
                | ok lic ↦
                    if call.equal_fold email lic.email
                    then (
                      w,
                      err (
                          bad_request "cannot invite the license owner — they already have access"),
                    )
                    else add_seat_located call email role lic w
              ]
    ]

abbrev pub seat_invite_invalid : AppError
seat_invite_invalid = new 404 "SEAT_INVITE_INVALID" "this invitation is invalid or has expired"

-- The statuses that end an acceptance.
abbrev pub bad_standing : Status → Bool
bad_standing suspended = true
bad_standing revoked = true
bad_standing canceled = true
bad_standing expired = true
bad_standing _ = false

pub record AcceptSeatInviteResult : Type 0 where
  pub user_id : String
  pub email : String
  pub license_id : String
  pub product_name : String
  pub role : String

-- A failed rollback is only logged: `none` leaves the table.
abbrev pub rolled_back : Option (List Seat) → List Seat → List Seat
rolled_back none t = t
rolled_back (some t') t = t'

-- After the store's transaction: 6 reads the license, 7 undoes the acceptance.
unfoldable pub accepted_by :
    SeatCall
    → User
    → Seat
    → List User
    → List Seat
    → SeatState
    → SeatState × Result AcceptSeatInviteResult
unfolding rollback_seat_accept
accepted_by call user s users t w =
    elim (query (call.io 6) (select (λ (l : License). l.id == s.license_id) w.licenses)) [
      | found lic ↦
          if bad_standing lic.status
          then (
            record w {
              users = users;
              table = rolled_back (rollback_seat_accept (call.io 7) s.id t) t;
            },
            err seat_invite_invalid,
          )
          else (
            record w { users = users; table = t },
            ok (record {
              user_id = user.id;
              email = user.email;
              license_id = s.license_id;
              product_name = elim lic.product [ none ↦ "" | some prod ↦ prod.name ];
              role = s.role;
            }),
          )
      | _ ↦ (record w { users = users; table = t }, err (internal db_error))
    ]

unfoldable pub accept_invite :
    SeatCall → String → SeatState → SeatState × Result AcceptSeatInviteResult
unfolding accept_seat_invite accepted_by
accept_invite call plain_token w =
    elim (accept_seat_invite call.hash_token call.lower call.io call.now call.new_id plain_token
      w.users w.table) [
        | invite_invalid ↦ (w, err seat_invite_invalid)
        | invite_failed ↦ (w, err (internal db_error))
        | invite_accepted user s users t ↦ accepted_by call user s users t w
      ]

-- Statement 2 finds the seat, 3 removes it.
unfoldable pub remove_seat_located :
    SeatCall → String → License → SeatState → SeatState × Result (Unit {0})
unfolding remove_seat
remove_seat_located call seat_id lic w =
    elim (query (call.io 2) (select (has_id seat_id) w.table)) [
      | found s ↦
          if not (s.license_id == lic.id)
          then (w, err (not_found "SEAT" seat_id))
          else elim (remove_seat (call.io 3) call.now seat_id w.table) [
            | none ↦ (w, err (internal db_error))
            | some t ↦ (
              record w {
                table = t;
                events = seat_event "seat.removed" lic ∷ w.events;
                audits = seat_audit seat_id "seat_removed" ∷ w.audits;
              },
              ok tt,
            )
          ]
      | _ ↦ (w, err (not_found "SEAT" seat_id))
    ]

unfoldable pub remove :
    SeatCall → String → String → String → SeatState → SeatState × Result (Unit {0})
unfolding load_license_for_sdk remove_seat_located
remove call license_key seat_id product_id w =
    elim (load_license_for_sdk call.now call.io call.crypto license_key product_id (some seats) true
      w.licenses) [ err e ↦ (w, err e) | ok lic ↦ remove_seat_located call seat_id lic w ]
