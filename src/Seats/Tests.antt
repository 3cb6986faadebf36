-- ===== src/Seats/Tests.antt =====
-- Tests of seats and invitations, and their theorems at concrete data.
use saas_admin.Prelude.{String, ◌≡◌, refl, true, false, none, some, [], ◌∷◌, arith, ◌==◌, eq_iff}
use saas_admin.Prelude.Table.{select, count, update}
use saas_admin.Database.{healthy}
use saas_admin.Licensing.Sample.{license, crypto}
use saas_admin.Seats.Table.{
  Seat, has_id, accept, add_seat_within_limit, accept_seat_invite, bind_invite, bind_seat,
  invite_invalid,
}
use saas_admin.Seats.{SeatState, SeatCall, accept_invite}
use saas_admin.Seats.Limit.{PrimaryKey, OutcomeChange, add_seat_within_limit-OutcomeChange}
use saas_admin.Seats.Invite.{OneToken, accept_once}
use saas_admin.Seats.Policy.{Granted, accept_invite-Granted}

-- A pending seat whose invitation ends at 1000.
abbrev pending : Seat
pending = record {
  id = "s1";
  license_id = "lic";
  user_id = "";
  email = "a@example.com";
  role = "member";
  accepted_at = none;
  removed_at = none;
  invite_token_hash = "T1";
  invite_expires_at = some 1000;
}

abbrev again : Seat
again = record pending { id = "s2"; invite_token_hash = "T2" }

abbrev id_hash : String → String
id_hash token = token

pending-PrimaryKey : PrimaryKey (pending ∷ [])
unfolding count
pending-PrimaryKey id = ground arith

pending-OneToken : OneToken (pending ∷ [])
unfolding count
pending-OneToken hash = ground arith

add_seat_within_limit-OutcomeChange_example :
    OutcomeChange again 2 "lic"
      (pending ∷ [])
      (add_seat_within_limit healthy again 2 (pending ∷ []))
add_seat_within_limit-OutcomeChange_example =
    add_seat_within_limit-OutcomeChange healthy again 2 "lic" (pending ∷ []) pending-PrimaryKey refl

accept_once_example :
    accept_seat_invite id_hash id_hash healthy 600 "u3" "T1" []
      (update (has_id "s1") (accept 500 "u1") (pending ∷ []))
    ≡ invite_invalid
unfolding accept_seat_invite bind_invite bind_seat select
accept_once_example =
    accept_once id_hash id_hash healthy healthy 500 600 "u1" "u3" "T1" [] [] (pending ∷ [])
      pending-PrimaryKey pending-OneToken refl refl refl

tokens_differ : again.invite_token_hash ≡ pending.invite_token_hash → false ≡ true
tokens_differ e = (eq_iff "T2" "T1").1 e

abbrev state : SeatState
state = record {
  licenses = license ∷ [];
  users = [];
  table = pending ∷ [];
  audits = [];
  events = [];
  mails = [];
}

abbrev call : SeatCall
call = record {
  now = 500;
  io = healthy;
  new_id = "u1";
  new_token = "T3";
  crypto = crypto;
  hash_token = id_hash;
  normalise = id_hash;
  lower = id_hash;
  equal_fold = λ a b. a == b;
  parse_address = λ a. some a;
  contains_at = λ a. true;
  mail_configured = false;
}

accept_invite-Granted_example :
    Granted call "T1" state (accept_invite call "T1" state).0 (accept_invite call "T1" state).1
accept_invite-Granted_example = accept_invite-Granted call "T1" state pending-PrimaryKey
