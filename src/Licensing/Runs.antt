-- ===== src/Licensing/Runs.antt =====
-- Sequences of requests to internal/service/license.go and rounds of the cleanup of
-- internal/middleware/bruteforce.go, in any order.
use saas_admin.Prelude.{ℕ, ◌≡◌, some}
use saas_admin.BruteForce.{BruteForceProtection, cleanup}
use saas_admin.Licensing.Service.{
  World, Call, ActivateInput, VerifyInput, activate, verify, deactivate,
}

-- The states that the requests of the three endpoints and the tracker's cleanup lead to.
pub data Runs (w₀ : World) : World → Type 0 where
  start : Runs w₀ w₀
  activates :
      {w : World} (call : Call) (input : ActivateInput)
      → Runs w₀ w
      → Runs w₀ (activate call input w).0
  verifies :
      {w : World} (call : Call) (input : VerifyInput) → Runs w₀ w → Runs w₀ (verify call input w).0
  deactivates :
      {w : World} (call : Call) (input : VerifyInput)
      → Runs w₀ w
      → Runs w₀ (deactivate call input w).0
  cleans :
      {w : World} {bf : BruteForceProtection} (now : ℕ)
      → w.failures ≡ some bf
      → Runs w₀ w
      → Runs w₀ (record w { failures = some (cleanup now bf) })
