-- ===== src/Seats/Invite.antt =====
-- Invitations of internal/store/seats.go: each token binds a seat once, and a new one voids it.
use saas_admin.Prelude.{
  ℕ, ◌≤◌, String, ◌≡◌, refl, sym, ◌≢◌, ◌⊎◌, inl, inr, Bool, true, false, ◌&&◌, none, some, List,
  ◌∷◌, arith, ◌==◌, eq_iff, eq_refl, Bool-cases,
}
use saas_admin.Prelude.Table.{
  select, count, update, count-update_found, select-eq-some, select-none_of_count,
}
use saas_admin.Database.{Io, Found, found, no_rows, failed, query}
use saas_admin.Seats.Table.{
  Seat, User, live_for, reinvite, seat_restored, has_id, live_seat, add_seat_within_limit,
  has_token, accept, AcceptOutcome, invite_accepted, invite_invalid, invite_failed, open_invite,
  bind_seat, bind_invite, accept_seat_invite,
}
use saas_admin.Seats.Limit.{PrimaryKey, select_of_query}

-- The unique index on the token hashes.
abbrev pub OneToken : List Seat → Type 0
OneToken t = (hash : String) → count (has_token hash) t ≤ 1

-- What an acceptance did: the token's invitation was open, and its seat was bound to the user.
abbrev pub Accepted : String → ℕ → List Seat → AcceptOutcome → Type 0
Accepted h now t (invite_accepted user s' users' t') =
    (s : Seat) × (select (has_token h) t ≡ some s)
    × (open_invite now s ≡ true)
    × (s' ≡ accept now user.id s)
    × (t' ≡ update (has_id s.id) (accept now user.id) t)
Accepted h now t invite_invalid = Unit
Accepted h now t invite_failed = Unit

Accepted-bind_seat :
    (io : Io) (h : String) (now : ℕ) (user : User) (s : Seat) (users : List User) (t : List Seat)
    (b : Bool)
    → select (has_token h) t ≡ some s
    → open_invite now s ≡ true
    → (io 4 && io 5) ≡ b
    → Accepted h now t (bind_seat io now user s users t)
unfolding bind_seat
Accepted-bind_seat io h now user s users t false e o b = rw (b, bind_seat) tt
Accepted-bind_seat io h now user s users t true e o b = rw (b, bind_seat) (s, e, o, refl, refl)

Accepted-bind_invite :
    (lower : String → String) (io : Io) (h : String) (now : ℕ) (new_id : String) (s : Seat)
    (users : List User) (t : List Seat) (f : Found User) (b : Bool)
    → select (has_token h) t ≡ some s
    → open_invite now s ≡ true
    → query (io 2) (select (λ u. lower u.email == s.email) users) ≡ f
    → io 3 ≡ b
    → Accepted h now t (bind_invite lower io now new_id s users t)
unfolding bind_invite
Accepted-bind_invite lower io h now new_id s users t failed b e o q k = rw (q, bind_invite) tt
Accepted-bind_invite lower io h now new_id s users t (found u) b e o q k =
    rw (q, bind_invite) (Accepted-bind_seat io h now u s users t _ e o refl)
Accepted-bind_invite lower io h now new_id s users t no_rows false e o q k =
    rw (q, bind_invite, k) tt
Accepted-bind_invite lower io h now new_id s users t no_rows true e o q k =
    let user : User = record { id = new_id; email = s.email; role = "user" } in
    rw (q, bind_invite, k) (Accepted-bind_seat io h now user s (user ∷ users) t _ e o refl)

pub Accepted-accept_seat_invite :
    (hash lower : String → String) (io : Io) (now : ℕ) (new_id token : String) (users : List User)
    (t : List Seat) (f : Found Seat) (b₀ b₁ : Bool)
    → (token == "") ≡ b₀
    → io 0 ≡ b₁
    → query (io 1) (select (has_token (hash token)) t) ≡ f
    → Accepted (hash token) now t (accept_seat_invite hash lower io now new_id token users t)
unfolding accept_seat_invite
Accepted-accept_seat_invite hash lower io now new_id token users t f true b₁ e₀ e₁ e =
    rw (e₀, accept_seat_invite) tt
Accepted-accept_seat_invite hash lower io now new_id token users t f false false e₀ e₁ e =
    rw (e₀, accept_seat_invite, e₁) tt
Accepted-accept_seat_invite hash lower io now new_id token users t no_rows false true e₀ e₁ e =
    rw (e₀, accept_seat_invite, e₁, e) tt
Accepted-accept_seat_invite hash lower io now new_id token users t failed false true e₀ e₁ e =
    rw (e₀, accept_seat_invite, e₁, e) tt
Accepted-accept_seat_invite hash lower io now new_id token users t (found s) false true e₀ e₁ e =
    elim (Bool-cases (open_invite now s)) [
      | inr n ↦ rw (e₀, accept_seat_invite, e₁, e, n) tt
      | inl o ↦
          rw (e₀, accept_seat_invite, e₁, e, o)
            (Accepted-bind_invite lower io (hash token) now new_id s users t _ _
              (select_of_query (io 1) (has_token (hash token)) t e) o refl refl)
    ]

-- A token that no seat has is refused.
refused :
    (hash lower : String → String) (io : Io) (now : ℕ) (new_id token : String) (users : List User)
    (t : List Seat)
    → io 0 ≡ true
    → io 1 ≡ true
    → count (has_token (hash token)) t ≡ 0
    → accept_seat_invite hash lower io now new_id token users t ≡ invite_invalid
unfolding accept_seat_invite
refused hash lower io now new_id token users t a b z =
    let n = select-none_of_count (has_token (hash token)) t z in
    elim (Bool-cases (token == "")) [
      | inl e ↦ rw (e, accept_seat_invite) refl
      | inr e ↦ rw (e, accept_seat_invite, a, b, n) refl
    ]

-- Writing a hash other than `h` over the seat that holds `h` leaves no seat with `h`.
overwritten :
    (h : String) (f : Seat → Seat) (t : List Seat) (s : Seat)
    → PrimaryKey t
    → OneToken t
    → select (has_token h) t ≡ some s
    → has_token h (f s) ≡ false
    → count (has_token h) (update (has_id s.id) f t) ≡ 0
overwritten h f t s k o e n =
    let c : has_token h s ≡ true = select-eq-some (has_token h) t e in
    let z =
      count-update_found (has_token h) (has_id s.id) (has_token h) f t {a = s} e (eq_refl s.id)
        (k s.id) in
    ground (arith, z, c, n, o h)

no_token :
    (h : String) (now : ℕ) (user_id : String) (s : Seat)
    → has_token h (accept now user_id s) ≡ false
no_token h now user_id s = ground (arith, eq_iff h "", eq_iff "" h)

once :
    (h : String) (now : ℕ) (t : List Seat) (o : AcceptOutcome) {user : User} {s : Seat}
    {users' : List User} {t' : List Seat}
    → PrimaryKey t
    → OneToken t
    → o ≡ invite_accepted user s users' t'
    → Accepted h now t o
    → count (has_token h) t' ≡ 0
once h now t (invite_accepted user s users' t') {t' = t₂} k u e (s₀, here, opened, bound, table) =
    let z = overwritten h (accept now user.id) t s₀ k u here (no_token h now user.id s₀) in
    let p : t' ≡ t₂ = ground (arith, e) in rw (sym p, table) z
once h now t invite_invalid k u e a = absurd (cc)
once h now t invite_failed k u e a = absurd (cc)

-- A token binds a seat once: after it was accepted every later use of it is refused as invalid,
-- whenever and by whomever, if its two queries run. It assumes the table's primary key and its unique
-- index on the hashes.
pub accept_once :
    (hash lower : String → String) (io io' : Io) (now now' : ℕ) (new_id new_id' token : String)
    (users users₂ : List User) (t : List Seat) {user : User} {s : Seat} {users' : List User}
    {t' : List Seat}
    → PrimaryKey t
    → OneToken t
    → accept_seat_invite hash lower io now new_id token users t ≡ invite_accepted user s users' t'
    → io' 0 ≡ true
    → io' 1 ≡ true
    → accept_seat_invite hash lower io' now' new_id' token users₂ t' ≡ invite_invalid
accept_once hash lower io io' now now' new_id new_id' token users users₂ t {t' = t'} k u e a b =
    refused hash lower io' now' new_id' token users₂ t' a b (
      once (hash token) now t _ k u e
        (Accepted-accept_seat_invite hash lower io now new_id token users t _ _ _ refl refl refl))

restored_inv :
    (io : Io) (seat s : Seat) (t : List Seat) {s' : Seat} {t' : List Seat}
    → s.accepted_at ≡ none
    → live_seat io seat s t ≡ seat_restored s' t'
    → t' ≡ update (has_id s.id) (reinvite seat) t
unfolding live_seat
restored_inv io seat s t a e = ground (arith, a, e)

added_inv :
    (io : Io) (seat s : Seat) (max_seats : ℕ) (t : List Seat) {s' : Seat} {t' : List Seat}
    → select (live_for seat.license_id seat.email) t ≡ some s
    → add_seat_within_limit io seat max_seats t ≡ seat_restored s' t'
    → (live_seat io seat s t ≡ seat_restored s' t') ⊎ (io 2 ≡ false)
unfolding add_seat_within_limit
added_inv io seat s max_seats t h e = elim (Bool-cases (io 2)) [
  | inl r ↦ inl (ground (arith, h, e, r))
  | inr r ↦ inr r
]

unread :
    (io : Io) (seat : Seat) (max_seats : ℕ) (t : List Seat) {s' : Seat} {t' : List Seat}
    → io 2 ≡ false
    → add_seat_within_limit io seat max_seats t ≢ seat_restored s' t'
unfolding add_seat_within_limit
unread io seat max_seats t r e = ground (arith, r, e)

voided :
    (seat s : Seat) (t : List Seat)
    → PrimaryKey t
    → OneToken t
    → select (live_for seat.license_id seat.email) t ≡ some s
    → (s.invite_token_hash == "") ≡ false
    → seat.invite_token_hash ≢ s.invite_token_hash
    → count (has_token s.invite_token_hash) (update (has_id s.id) (reinvite seat) t) ≡ 0
voided seat s t k u h n d =
    let q = has_token s.invite_token_hash in
    let z =
      count-update_found (live_for seat.license_id seat.email) (has_id s.id) q (reinvite seat) t
        {a = s} h (eq_refl s.id) (k s.id) in
    let was : q s ≡ true = rw (n, eq_refl s.invite_token_hash) refl in
    let now_not : q (reinvite seat s) ≡ false =
      ground (arith, d, eq_iff seat.invite_token_hash s.invite_token_hash) in
    ground (arith, z, was, now_not, u s.invite_token_hash)

-- Inviting a pending seat again voids the link that was sent before: after the new token is written,
-- every use of a token with the old hash is refused as invalid. The new hash is another one; the
-- table keeps its primary key and its unique index on the hashes.
pub reinvite_voids :
    (hash lower : String → String) (io io' : Io) (seat s : Seat) (max_seats now : ℕ)
    (new_id token : String) (users : List User) (t : List Seat) {s' : Seat} {t' : List Seat}
    → PrimaryKey t
    → OneToken t
    → select (live_for seat.license_id seat.email) t ≡ some s
    → s.accepted_at ≡ none
    → (s.invite_token_hash == "") ≡ false
    → seat.invite_token_hash ≢ s.invite_token_hash
    → hash token ≡ s.invite_token_hash
    → add_seat_within_limit io seat max_seats t ≡ seat_restored s' t'
    → io' 0 ≡ true
    → io' 1 ≡ true
    → accept_seat_invite hash lower io' now new_id token users t' ≡ invite_invalid
reinvite_voids hash lower io io' seat s max_seats now new_id token users t {t' = t'} k u h a n d p e
      x y =
    elim (added_inv io seat s max_seats t h e) [
      | inr r ↦ absurd (unread io seat max_seats t r e)
      | inl l ↦
          let q = restored_inv io seat s t a l in
          refused hash lower io' now new_id token users t' x y
            (rw (p, q) (voided seat s t k u h n d))
    ]
