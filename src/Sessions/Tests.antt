-- ===== src/Sessions/Tests.antt =====
-- The theorem of refresh tokens at concrete data.
use saas_admin.Prelude.{◌≡◌, refl, none, [], ◌∷◌, arith}
use saas_admin.Prelude.Table.{select, count, update}
use saas_admin.Database.{healthy}
use saas_admin.Sessions.{
  RefreshToken, RefreshCall, of_user, revoke, rotate_refresh_token, refresh, reuse_detected,
}
use saas_admin.Sessions.Rotation.{PrimaryKey, second_use_wipes}

abbrev token : RefreshToken
token = record {
  id = "r1";
  user_id = "u1";
  token_hash = "T1";
  expires_at = 1000;
  revoked_at = none;
}

abbrev call : RefreshCall
call = record {
  now = 20;
  io = healthy;
  new_id = "r2";
  new_raw = "T2";
  hash_token = λ raw. raw;
  users = "u1" ∷ [];
}

token-PrimaryKey : PrimaryKey (token ∷ [])
unfolding count
token-PrimaryKey id = ground arith

second_use_wipes_example :
    ((refresh call "T1" (revoke 10 token ∷ [])).1 ≡ reuse_detected)
    × (count (of_user "u1") (refresh call "T1" (revoke 10 token ∷ [])).0 ≡ 0)
unfolding rotate_refresh_token select update
second_use_wipes_example =
    second_use_wipes healthy 10 call "T1" (token ∷ []) token-PrimaryKey refl refl (omega arith)
      (omega arith) refl refl refl
