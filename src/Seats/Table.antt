-- ===== src/Seats/Table.antt =====
-- The statements of internal/store/seats.go. The empty text stands for NULL in `user_id` and
-- `invite_token_hash`.
use saas_admin.Prelude.{
  ℕ, max, String, Bool, true, false, not, ◌&&◌, Option, none, some, List, [], ◌∷◌, ◌==◌, ltb, leb,
  if◌then◌else◌,
}
use saas_admin.Prelude.Table.{select, count, update}
use saas_admin.Database.{Io, found, no_rows, failed, query}

pub record Seat : Type 0 where
  pub id : String
  pub license_id : String
  pub user_id : String
  pub email : String
  pub role : String
  pub accepted_at : Option ℕ
  pub removed_at : Option ℕ
  pub invite_token_hash : String
  pub invite_expires_at : Option ℕ

pub record User : Type 0 where
  pub id : String
  pub email : String
  pub role : String

-- removed_at IS NULL
abbrev pub present : Seat → Bool
present s = elim s.removed_at [ none ↦ true | some t ↦ false ]

abbrev pub live : String → Seat → Bool
live license_id s = s.license_id == license_id && present s

-- license_id = ? AND email = ?
abbrev pub seat_for : String → String → Seat → Bool
seat_for license_id email s = s.license_id == license_id && s.email == email

abbrev pub live_for : String → String → Seat → Bool
live_for license_id email s = seat_for license_id email s && present s

unfoldable pub count_active_seats : String → List Seat → ℕ
count_active_seats license_id = count (live license_id)

abbrev removal : Seat → ℕ
removal s = elim s.removed_at [ none ↦ 0 | some t ↦ t ]

abbrev last_removal : String → String → List Seat → ℕ
last_removal license_id email [] = 0
last_removal license_id email (s ∷ t) =
    if seat_for license_id email s && not (present s)
    then max (removal s) (last_removal license_id email t)
    else last_removal license_id email t

-- … AND removed_at IS NOT NULL ORDER BY removed_at DESC LIMIT 1
abbrev pub last_removed : String → String → List Seat → Seat → Bool
last_removed license_id email t s =
    seat_for license_id email s
    && not (present s)
    && leb (last_removal license_id email t) (removal s)

-- The new occupant gets the role, the token and its expiry of the request.
abbrev pub reinvite : Seat → Seat → Seat
reinvite seat s = record s {
  role = seat.role;
  invite_token_hash = seat.invite_token_hash;
  invite_expires_at = seat.invite_expires_at;
}

abbrev pub restore : Seat → Seat → Seat
restore seat s = record s {
  removed_at = none;
  user_id = "";
  accepted_at = none;
  role = seat.role;
  invite_token_hash = seat.invite_token_hash;
  invite_expires_at = seat.invite_expires_at;
}

pub data SeatAddOutcome : Type 0 where
  seat_created seat_restored seat_existed : Seat → List Seat → SeatAddOutcome
  seat_limit_reached : SeatAddOutcome
  seat_not_added : SeatAddOutcome

abbrev pub has_id : String → Seat → Bool
has_id id s = s.id == id

-- No live seat has the email: 4 looks for a removed one, 5 restores it or inserts, 6 commits.
unfoldable pub take_seat : Io → Seat → List Seat → SeatAddOutcome
take_seat io seat t = elim (query (io 4) (select (last_removed seat.license_id seat.email t) t)) [
  | found removed ↦
      if io 5 && io 6
      then seat_restored (restore seat removed) (update (has_id removed.id) (restore seat) t)
      else seat_not_added
  | failed ↦ seat_not_added
  | no_rows ↦ if io 5 && io 6 then seat_created seat (seat ∷ t) else seat_not_added
]

-- Statement 3 counts, if there is a maximum.
unfoldable pub within_seats : Io → Seat → ℕ → List Seat → SeatAddOutcome
unfolding take_seat count_active_seats
within_seats io seat max_seats t =
    if ltb 0 max_seats
    then if io 3
      then if leb max_seats (count_active_seats seat.license_id t)
        then seat_limit_reached
        else take_seat io seat t
      else seat_not_added
    else take_seat io seat t

-- A live seat: accepted, 3 commits; pending, 3 rotates its token and 4 commits.
unfoldable pub live_seat : Io → Seat → Seat → List Seat → SeatAddOutcome
live_seat io seat s t = elim s.accepted_at [
  | some at ↦ if io 3 then seat_existed s t else seat_not_added
  | none ↦
      if io 3 && io 4
      then seat_restored (reinvite seat s) (update (has_id s.id) (reinvite seat) t)
      else seat_not_added
]

-- 0 begins, 1 locks the license row, 2 looks for a live seat.
unfoldable pub add_seat_within_limit : Io → Seat → ℕ → List Seat → SeatAddOutcome
unfolding live_seat within_seats
add_seat_within_limit io seat max_seats t =
    if io 0 && io 1
    then elim (query (io 2) (select (live_for seat.license_id seat.email) t)) [
      | found s ↦ live_seat io seat s t
      | failed ↦ seat_not_added
      | no_rows ↦ within_seats io seat max_seats t
    ]
    else seat_not_added

abbrev pub has_token : String → Seat → Bool
has_token hash s = not (hash == "") && s.invite_token_hash == hash

abbrev pub accept : ℕ → String → Seat → Seat
accept now user_id s = record s {
  user_id = user_id;
  accepted_at = some now;
  invite_token_hash = "";
  invite_expires_at = none;
}

pub data AcceptOutcome : Type 0 where
  invite_accepted : User → Seat → List User → List Seat → AcceptOutcome
  invite_invalid : AcceptOutcome
  invite_failed : AcceptOutcome

abbrev expired_at : ℕ → Option ℕ → Bool
expired_at now none = true
expired_at now (some t) = ltb t now

abbrev pub open_invite : ℕ → Seat → Bool
open_invite now s =
    present s
    && (elim s.accepted_at [ none ↦ true | some t ↦ false ])
    && not (expired_at now s.invite_expires_at)

-- Statement 4 binds the seat, 5 commits.
unfoldable pub bind_seat : Io → ℕ → User → Seat → List User → List Seat → AcceptOutcome
bind_seat io now user s users t =
    if io 4 && io 5
    then invite_accepted user (accept now user.id s) users
        (update (has_id s.id) (accept now user.id) t)
    else invite_failed

-- The user of the seat's email, whose lower case is `lower` (2), or a new one (3).
unfoldable pub bind_invite :
    (String → String) → Io → ℕ → String → Seat → List User → List Seat → AcceptOutcome
unfolding bind_seat
bind_invite lower io now new_id s users t =
    elim (query (io 2) (select (λ u. lower u.email == s.email) users)) [
      | found user ↦ bind_seat io now user s users t
      | failed ↦ invite_failed
      | no_rows ↦
          let user : User = record { id = new_id; email = s.email; role = "user" } in
          if io 3 then bind_seat io now user s (user ∷ users) t else invite_failed
    ]

-- 0 begins, 1 finds and locks the seat of the token.
unfoldable pub accept_seat_invite :
    (String → String)
    → (String → String)
    → Io
    → ℕ
    → String
    → String
    → List User
    → List Seat
    → AcceptOutcome
unfolding bind_invite
accept_seat_invite hash lower io now new_id plain_token users t =
    if plain_token == ""
    then invite_invalid
    else if io 0
    then elim (query (io 1) (select (has_token (hash plain_token)) t)) [
      | no_rows ↦ invite_invalid
      | failed ↦ invite_failed
      | found s ↦
          if open_invite now s then bind_invite lower io now new_id s users t else invite_invalid
    ]
    else invite_failed

-- `none` is an error, here and below.
unfoldable pub rollback_seat_accept : Bool → String → List Seat → Option (List Seat)
rollback_seat_accept runs id t =
    if runs
    then some (update (has_id id) (λ s. record s { user_id = ""; accepted_at = none }) t)
    else none

unfoldable pub remove_seat : Bool → ℕ → String → List Seat → Option (List Seat)
remove_seat runs now id t =
    if runs
    then some (update (λ s. has_id id s && present s) (λ s. record s { removed_at = some now }) t)
    else none
