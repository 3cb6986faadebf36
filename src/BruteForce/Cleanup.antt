-- ===== src/BruteForce/Cleanup.antt =====
-- The sweep of internal/middleware/bruteforce.go frees memory and unlocks nobody.
use saas_admin.Prelude.{ℕ, ◌≤◌, ◌≡◌, String, Option, some, refl, ap, arith}
use saas_admin.Prelude.Dict.{get-put_self}
use saas_admin.BruteForce.{
  AttemptRecord, BruteForceProtection, sweep, cleanup, fail_record, is_blocked, locked_at,
  record_failure,
}

locked_at-sweep :
    (now later window : ℕ) (rec : Option AttemptRecord)
    → now ≤ later
    → locked_at later (sweep now window rec) ≡ locked_at later rec
unfolding sweep
locked_at-sweep now later window rec h = ground arith

fail_record-sweep :
    (now later : ℕ) (bf bf' : BruteForceProtection) (rec : Option AttemptRecord)
    → now ≤ later
    → bf'.max_fails ≡ bf.max_fails
    → bf'.lockout ≡ bf.lockout
    → bf'.max_lockout ≡ bf.max_lockout
    → bf'.window ≡ bf.window
    → fail_record bf' later (sweep now bf.window rec) ≡ fail_record bf later rec
unfolding fail_record sweep
fail_record-sweep now later bf bf' rec h a b c d = ground arith

-- A sweep changes for no key whether it is blocked, then or at any later time, nor what its next
-- failure, then or later, writes.
pub cleanup_unseen :
    (now later : ℕ) (key : String) (bf : BruteForceProtection)
    → now ≤ later
    → (is_blocked later key (cleanup now bf) ≡ is_blocked later key bf)
      × ((record_failure later key (cleanup now bf)).attempts key
          ≡ (record_failure later key bf).attempts key)
unfolding is_blocked record_failure cleanup
cleanup_unseen now later key bf h = (
  locked_at-sweep now later bf.window (bf.attempts key) h,
  rw (get-put_self, get-put_self)
      (ap some
        (fail_record-sweep now later bf (cleanup now bf) (bf.attempts key) h refl refl refl refl)),
)
