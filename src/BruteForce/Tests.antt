-- ===== src/BruteForce/Tests.antt =====
-- Tests of the tracker of failed attempts, and its theorems at concrete data.
use saas_admin.Prelude.{ℕ, ◌+◌, ◌≡◌, refl, false, some, [], ◌∷◌, arith, ltb}
use saas_admin.BruteForce.{
  AttemptRecord, BruteForceProtection, new_brute_force_protection, backoff, record_failure,
  is_blocked,
}
use saas_admin.BruteForce.Lockout.{record_failures, lockout_threshold}

-- Three failures within 300 lock for 60, then 120, at most 1800.
abbrev guard : BruteForceProtection
guard = new_brute_force_protection 3 60 1800 300

-- A record about to lock a second time.
abbrev about_to_lock : AttemptRecord
about_to_lock = record {
  failures = 2;
  first_failure = 1000;
  locked_until = 1000;
  lockout_count = 1;
}

-- A record whose lock outlasted the window.
abbrev long_locked : AttemptRecord
long_locked = record { failures = 0; first_failure = 1000; locked_until = 1480; lockout_count = 4 }

abbrev holding : AttemptRecord → BruteForceProtection
holding rec = record {
  attempts = λ key. some rec;
  max_fails = 3;
  lockout = 60;
  max_lockout = 1800;
  window = 300;
}

third_lockout : backoff 2 1800 60 ≡ 240
unfolding backoff
third_lockout = refl

lockout_threshold_example :
    let before = record_failures (10 ∷ 20 ∷ []) "ip" guard in
    ((now : ℕ) → is_blocked now "ip" before ≡ false)
    × ((now : ℕ)
        → is_blocked now "ip" (record_failure 30 "ip" before) ≡ ltb now (30 + guard.lockout))
unfolding new_brute_force_protection
lockout_threshold_example =
    lockout_threshold "ip" 10 30 (20 ∷ []) guard refl refl (omega arith, tt) (omega arith)
