-- ===== src/Prelude/Dict.antt =====
-- Go's `map[string]V`, as the function that looks a key up. The program never depends on the
-- order in which a map is walked.
use Prim.Native.String.{String}
use mathlib.Core.Path.{◌≡◌, refl}
use mathlib.Core.Option.{Option, none, some}
use mathlib.Core.Logic.{◌≢◌}
use native.Mathlib.Omega.{arith}
use text.Mathlib.Text.{◌==◌}
use text.Mathlib.TextEquality.{eq_iff}
use text.Mathlib.TextPositions.{eq_refl}
use saas_admin.Prelude.Tests.{if◌then◌else◌}

abbrev pub Dict {ℓ} : Type ℓ → Type ℓ
Dict V = String → Option V

module _ {ℓ} {V : Type ℓ} where
  abbrev pub empty : Dict V
  empty k = none

  -- m[k] = v
  abbrev pub put : Dict V → String → V → Dict V
  put m k v j = if k == j then some v else m j

  -- delete(m, k)
  abbrev pub remove : Dict V → String → Dict V
  remove m k j = if k == j then none else m j

  pub get-put_self : (m : Dict V) (k : String) (v : V) → put m k v k ≡ some v
  get-put_self m k v = rw eq_refl refl

  pub get-put_ne : (m : Dict V) {k j : String} (v : V) → k ≢ j → put m k v j ≡ m j
  get-put_ne m {k} {j} v h = ground (arith, eq_iff k j)

  pub get-remove_self : (m : Dict V) (k : String) → remove m k k ≡ none
  get-remove_self m k = rw eq_refl refl

  pub get-remove_ne : (m : Dict V) {k j : String} → k ≢ j → remove m k j ≡ m j
  get-remove_ne m {k} {j} h = ground (arith, eq_iff k j)
