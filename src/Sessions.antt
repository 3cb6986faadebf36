-- ===== src/Sessions.antt =====
-- Refresh tokens: `Refresh` and `issueSession` of internal/handler/oauth.go over the refresh tokens of
-- internal/store/store.go. The session's JWT and the cookies but the token are left out.
pub mod Rotation
mod Tests
use saas_admin.Prelude.{
  ℕ, zero, suc, ◌+◌, ◌-◌, ◌*◌, ◌/◌, ◌%◌, ◌^◌, ◌≤◌, ◌<◌, min, max, String, ◌≡◌, refl, sym, ap, ◌∙◌,
  ◌≢◌, ◌↔◌, ◌⊎◌, inl, inr, Bool, true, false, not, ◌&&◌, ◌||◌, Option, none, some, List, [], ◌∷◌,
  ◌++◌, map, arith, ◌==◌, eq_iff, eq_refl, ltb, leb, nat_eq, if◌then◌else◌, ltb→lt, lt→ltb, leb→le,
  le→leb, Bool-cases, Option-cases, length, All,
}
use saas_admin.Prelude.Table.{select, update, delete}
use saas_admin.Database.{Io, Found, found, no_rows, failed, query}
use saas_admin.Model.{day}

pub record RefreshToken : Type 0 where
  pub id : String
  pub user_id : String
  pub token_hash : String
  pub expires_at : ℕ
  pub revoked_at : Option ℕ

-- token_hash = ? AND expires_at > now()
abbrev pub current : ℕ → String → RefreshToken → Bool
current now hash rt = rt.token_hash == hash && ltb now rt.expires_at

abbrev pub of_user : String → RefreshToken → Bool
of_user user_id rt = rt.user_id == user_id

abbrev pub revoked : RefreshToken → Bool
revoked rt = elim rt.revoked_at [ none ↦ false | some t ↦ true ]

-- `none` is an error.
unfoldable pub create_refresh_token :
    Bool → String → String → String → ℕ → List RefreshToken → Option (List RefreshToken)
create_refresh_token runs id user_id token_hash expires_at t =
    if runs
    then some (
        record {
          id = id;
          user_id = user_id;
          token_hash = token_hash;
          expires_at = expires_at;
          revoked_at = none;
        }
        ∷ t)
    else none

unfoldable pub find_refresh_token : Bool → ℕ → String → List RefreshToken → Found RefreshToken
find_refresh_token runs now hash t =
    query runs (select (λ rt. current now hash rt && not (revoked rt)) t)

pub data RotateOutcome : Type 0 where
  rotated : RefreshToken → List RefreshToken → RotateOutcome
  reused : RefreshToken → RotateOutcome
  not_rotated : RotateOutcome

abbrev pub revoke : ℕ → RefreshToken → RefreshToken
revoke now rt = record rt { revoked_at = some now }

-- Statement 0 begins, 1 finds and locks the row, 2 revokes it, 3 commits. The commit after a reuse is
-- ignored.
unfoldable pub rotate_refresh_token : Io → ℕ → String → List RefreshToken → RotateOutcome
rotate_refresh_token io now hash t =
    if io 0
    then elim (query (io 1) (select (current now hash) t)) [
      | found rt ↦
          if revoked rt
          then reused rt
          else if io 2 && io 3
          then rotated (revoke now rt) (update (λ r. r.id == rt.id) (revoke now) t)
          else not_rotated
      | _ ↦ not_rotated
    ]
    else not_rotated

-- The errors of these three are ignored.
unfoldable pub delete_refresh_token : Bool → String → List RefreshToken → List RefreshToken
delete_refresh_token runs hash t = if runs then delete (λ rt. rt.token_hash == hash) t else t

unfoldable pub delete_user_refresh_tokens : Bool → String → List RefreshToken → List RefreshToken
delete_user_refresh_tokens runs user_id t = if runs then delete (of_user user_id) t else t

unfoldable pub clean_expired_refresh_tokens : Bool → ℕ → List RefreshToken → List RefreshToken
clean_expired_refresh_tokens runs now t = if runs then delete (λ rt. ltb rt.expires_at now) t else t

pub data RefreshReply : Type 0 where
  -- the cookie with the new refresh token
  refreshed : String → RefreshReply
  no_refresh_token reuse_detected invalid_refresh_token user_not_found : RefreshReply

pub record RefreshCall : Type 0 where
  pub now : ℕ
  pub io : Io
  pub new_id : String
  -- randomHex(32)
  pub new_raw : String
  pub hash_token : String → String
  -- the users' ids
  pub users : List String

-- Statement 5 stores the token; its error is ignored.
unfoldable pub issue_session :
    RefreshCall → String → List RefreshToken → List RefreshToken × RefreshReply
unfolding create_refresh_token
issue_session call user_id t = (
  elim (create_refresh_token (call.io 5) call.new_id user_id (call.hash_token call.new_raw)
      (call.now + 30 * day) t) [ none ↦ t | some t' ↦ t' ],
  refreshed call.new_raw,
)

-- Statement 4 finds the user, or wipes the tokens after a reuse. An absent cookie is empty.
unfoldable pub refresh : RefreshCall → String → List RefreshToken → List RefreshToken × RefreshReply
unfolding rotate_refresh_token delete_user_refresh_tokens issue_session
refresh call raw t =
    if raw == ""
    then (t, no_refresh_token)
    else elim (rotate_refresh_token call.io call.now (call.hash_token raw) t) [
      | reused rt ↦ (delete_user_refresh_tokens (call.io 4) rt.user_id t, reuse_detected)
      | not_rotated ↦ (t, invalid_refresh_token)
      | rotated rt t' ↦ elim (query (call.io 4) (select (λ u. u == rt.user_id) call.users)) [
        | found u ↦ issue_session call u t'
        | _ ↦ (t', user_not_found)
      ]
    ]
