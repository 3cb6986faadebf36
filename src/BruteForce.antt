-- ===== src/BruteForce.antt =====
-- internal/middleware/bruteforce.go: failed attempts by key, lockouts with exponential backoff.
-- A time is a number of nanoseconds since the epoch (the zero time is 0), a duration a number of
-- nanoseconds: the bit pattern of an int64. `time.Now()` is the argument `now`.
pub mod Backoff
pub mod Lockout
pub mod Cleanup
mod Tests
use saas_admin.Prelude.{
  ℕ, zero, suc, ◌+◌, ◌*◌, ◌%◌, ◌^◌, String, Bool, true, false, not, ◌&&◌, Option, none, some, ltb,
  leb, if◌then◌else◌,
}
use saas_admin.Prelude.Dict
use saas_admin.Prelude.Dict.{Dict}

pub record AttemptRecord : Type 0 where
  pub failures : ℕ
  pub first_failure : ℕ
  pub locked_until : ℕ
  pub lockout_count : ℕ

pub record BruteForceProtection : Type 0 where
  pub attempts : Dict AttemptRecord
  pub max_fails : ℕ
  pub lockout : ℕ
  pub max_lockout : ℕ
  pub window : ℕ

unfoldable pub new_brute_force_protection : ℕ → ℕ → ℕ → ℕ → BruteForceProtection
new_brute_force_protection max_fails lockout max_lockout window = record {
  attempts = Dict.empty;
  max_fails = max_fails;
  lockout = lockout;
  max_lockout = max_lockout;
  window = window;
}

-- `a > b` on int64 bit patterns, for `b` that is not negative.
abbrev pub gt_int64 : ℕ → ℕ → Bool
gt_int64 a b = ltb a (2 ^ 63) && ltb b a

-- The loop over `i < rec.lockoutCount`: rounds left, the cap, the duration so far.
unfoldable pub backoff : ℕ → ℕ → ℕ → ℕ
backoff zero max_lockout duration = duration
backoff (suc n) max_lockout duration =
    let doubled = (duration * 2) % 2 ^ 64 in
    let rest = backoff n max_lockout doubled in
    if gt_int64 doubled max_lockout then max_lockout else rest

-- The body of `RecordFailure` on the record that the map holds for the key.
unfoldable pub fail_record : BruteForceProtection → ℕ → Option AttemptRecord → AttemptRecord
fail_record bf now none = record {
  failures = 1;
  first_failure = now;
  locked_until = 0;
  lockout_count = 0;
}
fail_record bf now (some rec) =
    if ltb (rec.first_failure + bf.window) now
    then record { failures = 1; first_failure = now; locked_until = 0; lockout_count = 0 }
    else if leb bf.max_fails (rec.failures + 1)
    then record {
      failures = 0;
      first_failure = now;
      locked_until = now + backoff rec.lockout_count bf.max_lockout bf.lockout;
      lockout_count = rec.lockout_count + 1;
    }
    else record rec { failures = rec.failures + 1 }

unfoldable pub record_failure : ℕ → String → BruteForceProtection → BruteForceProtection
unfolding fail_record
record_failure now key bf = record bf {
  attempts = Dict.put bf.attempts key (fail_record bf now (bf.attempts key));
}

unfoldable pub record_success : String → BruteForceProtection → BruteForceProtection
record_success key bf = record bf { attempts = Dict.remove bf.attempts key }

abbrev pub locked_at : ℕ → Option AttemptRecord → Bool
locked_at now none = false
locked_at now (some rec) = ltb now rec.locked_until

-- The Boolean result of `IsBlocked`.
unfoldable pub is_blocked : ℕ → String → BruteForceProtection → Bool
is_blocked now key bf = locked_at now (bf.attempts key)

-- One entry under a round of `cleanup`: dropped if it is old and not locked.
unfoldable pub sweep : ℕ → ℕ → Option AttemptRecord → Option AttemptRecord
sweep now window none = none
sweep now window (some rec) =
    if ltb (rec.first_failure + window * 4) now && not (ltb now rec.locked_until)
    then none
    else some rec

unfoldable pub cleanup : ℕ → BruteForceProtection → BruteForceProtection
unfolding sweep
cleanup now bf = record bf { attempts = λ key. sweep now bf.window (bf.attempts key) }
