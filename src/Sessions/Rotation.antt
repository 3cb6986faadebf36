-- ===== src/Sessions/Rotation.antt =====
-- A refresh token works once, and a second use ends every session of its user
-- (internal/handler/oauth.go, `Refresh`).
use mathlib.Core.Path.{subst}
use saas_admin.Prelude.{
  ℕ, ◌≤◌, ◌<◌, String, ◌≡◌, refl, inl, inr, Bool, true, false, some, List, [], ◌∷◌, arith, ◌==◌,
  eq_refl, Bool-cases,
}
use saas_admin.Prelude.Table.{count_pos_of_found, select, count, update, count-delete_self}
use saas_admin.Database.{Found, found, no_rows, failed, query}
use saas_admin.Sessions.{
  RefreshToken, current, of_user, revoked, rotated, revoke, rotate_refresh_token,
  delete_user_refresh_tokens, reuse_detected, RefreshCall, refresh,
}

-- The primary key of the table.
abbrev pub PrimaryKey : List RefreshToken → Type 0
PrimaryKey t = (id : String) → count (λ rt. rt.id == id) t ≤ 1

token_of_query :
    (runs : Bool) (p : RefreshToken → Bool) (t : List RefreshToken) {rt : RefreshToken}
    → query runs (select p t) ≡ found rt
    → select p t ≡ some rt
token_of_query runs p t h = ground arith

-- The first row that meets a condition, after an update that only ever touches the found row.
select-revoked :
    (now later : ℕ) (hash : String) (t : List RefreshToken) {rt : RefreshToken}
    → select (current now hash) t ≡ some rt
    → later < rt.expires_at
    → now ≤ later
    → count (λ r. r.id == rt.id) t ≤ 1
    → select (current later hash) (update (λ r. r.id == rt.id) (revoke now) t)
      ≡ some (revoke now rt)
unfolding select update count
select-revoked now later hash [] h l n c = absurd (ground arith)
select-revoked now later hash (r ∷ t) {rt = rt} h l n c = elim (Bool-cases (current now hash r)) [
  | inl e ↦
      let s : r ≡ rt = ground (arith, h, e) in
      let k : current now hash rt ≡ true = subst (λ x. current now hash x ≡ true) s e in
      let p : rt.token_hash == hash ≡ true = ground (arith, k) in
      rw (s, eq_refl rt.id) (ground (arith, p, l))
  | inr e ↦
      let h' : select (current now hash) t ≡ some rt = ground (arith, h, e) in
      let e' : current later hash r ≡ false = ground (arith, e, n) in
      elim (Bool-cases (r.id == rt.id)) [
        | inl i ↦
            let z =
              count_pos_of_found (current now hash) (λ x. x.id == rt.id) t {a = rt} h'
                (eq_refl rt.id) in
            absurd (ground (arith, z, c, i))
        | inr i ↦
            rw (i, e') (select-revoked now later hash t {rt = rt} h' l n (ground (arith, c, i)))
      ]
]

-- What a rotation did: the token was current and not revoked, and its row is now revoked.
rotated_inv :
    (io : ℕ → Bool) (now : ℕ) (hash : String) (t : List RefreshToken) {rt' : RefreshToken}
    {t' : List RefreshToken} (f : Found RefreshToken) (b : Bool)
    → query (io 1) (select (current now hash) t) ≡ f
    → io 0 ≡ b
    → rotate_refresh_token io now hash t ≡ rotated rt' t'
    → (rt : RefreshToken) × (select (current now hash) t ≡ some rt)
      × (revoked rt ≡ false)
      × (rt' ≡ revoke now rt)
      × (t' ≡ update (λ r. r.id == rt.id) (revoke now) t)
unfolding rotate_refresh_token
rotated_inv io now hash t f false e b = rw (b, rotate_refresh_token) (λ h. absurd (cc))
rotated_inv io now hash t no_rows true e b = rw (b, e, rotate_refresh_token) (λ h. absurd (cc))
rotated_inv io now hash t failed true e b = rw (b, e, rotate_refresh_token) (λ h. absurd (cc))
rotated_inv io now hash t (found rt) true e b =
    rw (b, e, rotate_refresh_token)
      (λ h. (
        rt,
        token_of_query (io 1) (current now hash) t e,
        ground (arith, h),
        ground (arith, h),
        ground (arith, h),
      ))

-- A rotated token that is presented again before it expires is recognised, and every refresh token of
-- its user is gone.
reuse_wipes :
    (call : RefreshCall) (raw : String) (t : List RefreshToken) (rt : RefreshToken)
    → (raw == "") ≡ false
    → select (current call.now (call.hash_token raw)) t ≡ some rt
    → revoked rt ≡ true
    → call.io 0 ≡ true
    → call.io 1 ≡ true
    → call.io 4 ≡ true
    → ((refresh call raw t).1 ≡ reuse_detected)
      × (count (of_user rt.user_id) (refresh call raw t).0 ≡ 0)
unfolding refresh rotate_refresh_token delete_user_refresh_tokens
reuse_wipes call raw t rt n e r a b d =
    rw (n, refresh, a, b, e, rotate_refresh_token, r, delete_user_refresh_tokens, d)
      (refl, count-delete_self (of_user rt.user_id) t)

-- A refresh token works once: when it was rotated, presenting it again before it expires is answered
-- as a reuse, and leaves its user no refresh token at all, neither the thief's nor the owner's. The
-- statements of the second request run; the table has its primary key.
pub second_use_wipes :
    (io : ℕ → Bool) (now : ℕ) (call : RefreshCall) (raw : String) (t : List RefreshToken)
    {rt' : RefreshToken} {t' : List RefreshToken}
    → PrimaryKey t
    → (raw == "") ≡ false
    → rotate_refresh_token io now (call.hash_token raw) t ≡ rotated rt' t'
    → now ≤ call.now
    → call.now < rt'.expires_at
    → call.io 0 ≡ true
    → call.io 1 ≡ true
    → call.io 4 ≡ true
    → ((refresh call raw t').1 ≡ reuse_detected)
      × (count (of_user rt'.user_id) (refresh call raw t').0 ≡ 0)
second_use_wipes io now call raw t {rt' = rt'} {t' = t'} k n e l x a b d =
    let (rt, here, old, p, q) = rotated_inv io now (call.hash_token raw) t _ _ refl refl e in
    let x' : call.now < rt.expires_at = subst (λ (r : RefreshToken). call.now < r.expires_at) p x in
    let s : select (current call.now (call.hash_token raw)) t' ≡ some rt' =
      rw (p, q) (select-revoked now call.now (call.hash_token raw) t here x' l (k rt.id)) in
    reuse_wipes call raw t' rt' n s (rw p refl) a b d
