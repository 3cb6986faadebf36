-- ===== src/Floating/Tests.antt =====
-- Tests of floating sessions, and their theorems at concrete data.
use saas_admin.Prelude.{suc, String, ◌≡◌, refl, true, [], ◌∷◌, arith, leb}
use saas_admin.Prelude.Table.{select, count}
use saas_admin.Model.{product_supports}
use saas_admin.Licensing.Rules.{is_license_usable, grace_days}
use saas_admin.Licensing.Store.{find_license_by_key}
use saas_admin.Licensing.Sdk.{load_license_for_sdk, sdk_license}
use saas_admin.Licensing.Sample.{license, call}
use saas_admin.Floating.{
  FloatingSession, FloatingState, CheckOutInput, count_active_floating, take_session,
  check_out_floating_with_limit, check_out_located, check_out, heartbeat, clean_expired,
}
use saas_admin.Floating.Expired.{OneHolder, heartbeat_revives}
use saas_admin.Floating.Cleanup.{clean_expired_invisible}

abbrev no_sessions : FloatingState
no_sessions = record { licenses = license ∷ []; sessions = [] }

-- The session of a device that expired at 500.
abbrev expired_session : FloatingSession
expired_session = record {
  id = "s0";
  license_id = "lic";
  identifier = "m1";
  label = "";
  ip_address = "";
  checked_out = 0;
  expires_at = 500;
  heartbeat = 0;
}

abbrev one_expired : FloatingState
one_expired = record { licenses = license ∷ []; sessions = expired_session ∷ [] }

abbrev machine : String → CheckOutInput
machine identifier = record {
  license_key = "KEY";
  identifier = identifier;
  label = "";
  product_id = "prod";
  ip_address = "";
}

third_machine_refused :
    count_active_floating 1000 "lic"
      (check_out
        (call 1000 "s3")
        (machine "m3")
        (check_out
          (call 1000 "s2")
          (machine "m2")
          (check_out (call 1000 "s1") (machine "m1") no_sessions).0).0).0.sessions
    ≡ 2
unfolding check_out load_license_for_sdk find_license_by_key sdk_license product_supports
    is_license_usable grace_days select count check_out_located check_out_floating_with_limit
    take_session count_active_floating
third_machine_refused = refl

one_expired-OneHolder : OneHolder one_expired.sessions
unfolding count
one_expired-OneHolder l i = ground arith

heartbeat_revives_example :
    count_active_floating 1000 "lic"
      (heartbeat (call 1000 "") "KEY" "m1" "prod" one_expired).0.sessions
    ≡ suc (count_active_floating 1000 "lic" one_expired.sessions)
unfolding load_license_for_sdk find_license_by_key sdk_license product_supports is_license_usable
    grace_days select
heartbeat_revives_example =
    heartbeat_revives (call 1000 "") "KEY" "m1" "prod" one_expired license expired_session
      one_expired-OneHolder refl refl refl (omega arith)

clean_expired_invisible_example :
    (count_active_floating 1200 "lic" (clean_expired (call 1000 "") one_expired).sessions
      ≡ count_active_floating 1200 "lic" one_expired.sessions)
    × (true ≡ true
        → count (λ s. leb s.expires_at 1000) (clean_expired (call 1000 "") one_expired).sessions
          ≡ 0)
clean_expired_invisible_example =
    clean_expired_invisible (call 1000 "") one_expired "lic" 1200 (omega arith)
