-- ===== src/BruteForce/Lockout.antt =====
-- When internal/middleware/bruteforce.go locks a key.
use saas_admin.Prelude.{
  ℕ, ◌+◌, ◌*◌, ◌^◌, ◌≤◌, ◌<◌, min, String, ◌≡◌, refl, ap, ◌∙◌, ◌≢◌, false, none, some, List, [],
  ◌∷◌, arith, ltb, length, All,
}
use saas_admin.Prelude.Dict.{get-put_self, get-put_ne}
use saas_admin.BruteForce.{
  AttemptRecord, BruteForceProtection, backoff, fail_record, record_failure, is_blocked,
}
use saas_admin.BruteForce.Backoff.{backoff-eq-min}

-- The failures of one key at the given times, in order.
abbrev pub record_failures : List ℕ → String → BruteForceProtection → BruteForceProtection
record_failures [] key bf = bf
record_failures (now ∷ times) key bf = record_failures times key (record_failure now key bf)

-- One more failure below the threshold only counts.
count_one :
    (now : ℕ) (key : String) (bf : BruteForceProtection) (rec : AttemptRecord)
    → bf.attempts key ≡ some rec
    → rec.failures + 1 < bf.max_fails
    → now ≤ rec.first_failure + bf.window
    → (record_failure now key bf).attempts key ≡ some (record rec { failures = rec.failures + 1 })
unfolding record_failure
count_one now key bf rec e h w = rw get-put_self (rw e (ground arith))

counting :
    (key : String) (times : List ℕ) (bf : BruteForceProtection) (rec : AttemptRecord)
    → bf.attempts key ≡ some rec
    → rec.failures + length times < bf.max_fails
    → All (λ t. t ≤ rec.first_failure + bf.window) times
    → (record_failures times key bf).attempts key
      ≡ some (record rec { failures = rec.failures + length times })
counting key [] bf rec e h a = rw e (ground arith)
counting key (t ∷ times) bf rec e h a =
    counting key times (record_failure t key bf) (record rec { failures = rec.failures + 1 })
      (count_one t key bf rec e (omega arith) a.0) (unfold record_failure in omega arith)
      (unfold record_failure in a.1)
    ∙ ground arith

fails_once :
    (now : ℕ) (key : String) (bf : BruteForceProtection)
    → bf.attempts key ≡ none
    → (record_failure now key bf).attempts key
      ≡ some (record { failures = 1; first_failure = now; locked_until = 0; lockout_count = 0 })
unfolding record_failure
fails_once now key bf e = rw get-put_self (rw e refl)

-- A failure within the window that reaches the threshold locks its key until `now` plus the
-- smaller of `lockout * 2^lockout_count` and the cap, and starts a new count with one more lockout;
-- no other key is affected. The cap is below 2^62 nanoseconds and at least the first lockout.
pub record_failure_locks :
    (now : ℕ) (key : String) (bf : BruteForceProtection) (rec : AttemptRecord)
    → bf.attempts key ≡ some rec
    → bf.max_fails ≤ rec.failures + 1
    → now ≤ rec.first_failure + bf.window
    → bf.lockout ≤ bf.max_lockout
    → bf.max_lockout < 2 ^ 62
    → ((record_failure now key bf).attempts key
        ≡ some (record {
          failures = 0;
          first_failure = now;
          locked_until = now + min (bf.lockout * 2 ^ rec.lockout_count) bf.max_lockout;
          lockout_count = rec.lockout_count + 1;
        }))
      × ((j : String) → key ≢ j → (record_failure now key bf).attempts j ≡ bf.attempts j)
unfolding record_failure
record_failure_locks now key bf rec e f w c l = (
  rw (get-put_self, e) (ground (arith, backoff-eq-min rec.lockout_count bf.max_lockout bf.lockout)),
  λ j ne. get-put_ne bf.attempts (fail_record bf now (bf.attempts key)) ne,
)

abbrev pub counted : ℕ → ℕ → AttemptRecord
counted t₀ n = record { failures = n; first_failure = t₀; locked_until = 0; lockout_count = 0 }

counted_times :
    (key : String) (t₀ : ℕ) (times : List ℕ) (bf : BruteForceProtection)
    → bf.attempts key ≡ none
    → length times + 2 ≡ bf.max_fails
    → All (λ t. t ≤ t₀ + bf.window) times
    → (record_failures (t₀ ∷ times) key bf).attempts key ≡ some (counted t₀ (1 + length times))
counted_times key t₀ times bf e n a =
    counting key times (record_failure t₀ key bf) (counted t₀ 1) (fails_once t₀ key bf e)
      (unfold record_failure in omega arith) (unfold record_failure in a)

settings-record_failures :
    (key : String) (times : List ℕ) (bf : BruteForceProtection)
    → ((record_failures times key bf).max_fails ≡ bf.max_fails)
      × ((record_failures times key bf).window ≡ bf.window)
      × ((record_failures times key bf).lockout ≡ bf.lockout)
      × ((record_failures times key bf).max_lockout ≡ bf.max_lockout)
unfolding record_failure
settings-record_failures key [] bf = (refl, refl, refl, refl)
settings-record_failures key (t ∷ times) bf =
    settings-record_failures key times (record_failure t key bf)

locks_at :
    (now t : ℕ) (key : String) (bf : BruteForceProtection) (t₀ n : ℕ)
    → bf.attempts key ≡ some (counted t₀ n)
    → bf.max_fails ≤ n + 1
    → t ≤ t₀ + bf.window
    → is_blocked now key (record_failure t key bf) ≡ ltb now (t + bf.lockout)
unfolding record_failure is_blocked backoff
locks_at now t key bf t₀ n e f w = rw (get-put_self, e) (ground arith)

-- A key with no record that fails `max_fails` times (at least 2), all within the window that its
-- first failure opened, is blocked by none of the earlier failures, at no time; the last failure,
-- at `t`, blocks it exactly until `t + lockout`.
pub lockout_threshold :
    (key : String) (t₀ t : ℕ) (times : List ℕ) (bf : BruteForceProtection)
    → bf.attempts key ≡ none
    → length times + 2 ≡ bf.max_fails
    → All (λ t'. t' ≤ t₀ + bf.window) times
    → t ≤ t₀ + bf.window
    → let before = record_failures (t₀ ∷ times) key bf in
      ((now : ℕ) → is_blocked now key before ≡ false)
      × ((now : ℕ) → is_blocked now key (record_failure t key before) ≡ ltb now (t + bf.lockout))
lockout_threshold key t₀ t times bf e n a w =
    let before = record_failures (t₀ ∷ times) key bf in
    let held = counted_times key t₀ times bf e n a in
    let same = settings-record_failures key (t₀ ∷ times) bf in
    (
      λ now. unfold is_blocked in rw held (ground arith),
      λ now.
          locks_at now t key before t₀ (1 + length times) held (omega (arith, same))
            (omega (arith, same))
          ∙ ap (λ (l : ℕ). ltb now (t + l)) same.2,
    )

-- A lock that outlasts the window is forgotten: the first failure after it ended starts a record
-- with no lockouts, so the next lockout is the shortest one again.
pub long_lock_resets :
    (now : ℕ) (key : String) (bf : BruteForceProtection) (rec : AttemptRecord)
    → bf.attempts key ≡ some rec
    → rec.first_failure + bf.window < rec.locked_until
    → rec.locked_until ≤ now
    → ((record_failure now key bf).attempts key ≡ some (counted now 1))
      × ((later : ℕ) → is_blocked later key (record_failure now key bf) ≡ false)
unfolding record_failure is_blocked
long_lock_resets now key bf rec e w l =
    (rw (get-put_self, e) (ground arith), λ later. rw (get-put_self, e) (ground arith))
