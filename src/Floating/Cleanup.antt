-- ===== src/Floating/Cleanup.antt =====
-- The end of a session: `CheckIn` and `CleanExpired` of internal/service/floating.go.
use saas_admin.Prelude.{
  ℕ, ◌≤◌, String, ◌≡◌, refl, ◌≢◌, inl, inr, true, some, List, arith, eq_iff, leb, Bool-cases,
}
use saas_admin.Prelude.Table.{count, count-delete_self, count-delete_other}
use saas_admin.Apperr.{Result, ok, err}
use saas_admin.Model.{License, activations}
use saas_admin.Licensing.Sdk.{load_license_for_sdk}
use saas_admin.Licensing.Service.{Call}
use saas_admin.Floating.{
  FloatingSession, FloatingState, live, same_holder, count_active_floating, check_in_floating,
  clean_expired_floating, check_in, clean_expired,
}

-- The cleanup changes no count of live sessions, then or later, and when its statement runs it leaves
-- no expired session behind.
pub clean_expired_invisible :
    (call : Call) (w : FloatingState) (i : String) (later : ℕ)
    → call.now ≤ later
    → (count_active_floating later i (clean_expired call w).sessions
        ≡ count_active_floating later i w.sessions)
      × (call.io 0 ≡ true
          → count (λ s. leb s.expires_at call.now) (clean_expired call w).sessions ≡ 0)
unfolding clean_expired clean_expired_floating count_active_floating
clean_expired_invisible call w i later l = elim (Bool-cases (call.io 0)) [
  | inl b ↦
      rw (b, clean_expired, clean_expired_floating)
        (
          count-delete_other (live later i) (λ s. leb s.expires_at call.now) w.sessions
              (λ s e. ground (arith, l, e)),
          λ h. count-delete_self (λ s. leb s.expires_at call.now) w.sessions,
        )
  | inr b ↦ rw (b, clean_expired, clean_expired_floating) (refl, λ h. absurd (cc))
]

-- What a check-in does to the sessions of `i`: those of another license stay, and after a success
-- the device holds none of the license that was found.
abbrev pub CheckedIn :
    String → String → ℕ → List FloatingSession → List FloatingSession → Result License → Type 0
CheckedIn identifier i now t t' (err e) = t' ≡ t
CheckedIn identifier i now t t' (ok lic) =
    (count (same_holder lic.id identifier) t' ≡ 0)
    × (lic.id ≢ i → count_active_floating now i t' ≡ count_active_floating now i t)

CheckedIn-check_in :
    (call : Call) (key identifier product_id : String) (w : FloatingState) (i : String)
    (l : Result License)
    → load_license_for_sdk call.now call.io call.crypto key product_id
        (some activations)
        true
        w.licenses
      ≡ l
    → (check_in call key identifier product_id w).1 ≡ ok tt
    → CheckedIn identifier i call.now w.sessions
        (check_in call key identifier product_id w).0.sessions
        l
unfolding check_in check_in_floating count_active_floating
CheckedIn-check_in call key identifier product_id w i (err x) e =
    rw (e, check_in) (λ h. absurd (cc))
CheckedIn-check_in call key identifier product_id w i (ok lic) e = elim (Bool-cases (call.io 2)) [
  | inl b ↦
      rw (e, b, check_in, check_in_floating)
        (λ h. (
          count-delete_self (same_holder lic.id identifier) w.sessions,
          λ n.
              count-delete_other (live call.now i) (same_holder lic.id identifier) w.sessions
                (λ s k. ground (arith, n, k, eq_iff s.license_id lic.id, eq_iff s.license_id i)),
        ))
  | inr b ↦ rw (e, b, check_in, check_in_floating) (λ h. absurd (cc))
]

-- A check-in that answers with success found the license, leaves no session of the device on it, and
-- leaves the live sessions of every other license.
pub check_in_frees :
    (call : Call) (key identifier product_id : String) (w : FloatingState) (i : String)
    → (check_in call key identifier product_id w).1 ≡ ok tt
    → CheckedIn identifier i call.now w.sessions
        (check_in call key identifier product_id w).0.sessions
        (load_license_for_sdk call.now call.io call.crypto key product_id
          (some activations)
          true
          w.licenses)
check_in_frees call key identifier product_id w i h =
    CheckedIn-check_in call key identifier product_id w i _ refl h
