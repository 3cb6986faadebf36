-- ===== src/Licensing/Store.antt =====
-- The statements of internal/store/store.go that the license service runs.
use saas_admin.Prelude.{
  ℕ, max, String, Bool, true, false, ◌&&◌, Option, none, some, List, ◌∷◌, ◌==◌, leb, if◌then◌else◌,
}
use saas_admin.Prelude.Table.{select, count, update, delete}
use saas_admin.Database.{Io, Found, found, query}
use saas_admin.Model.{License, Activation}
use saas_admin.Licensing.Token.{Crypto}

-- By the hash; if that query finds nothing or fails, by the plain text of keys not yet migrated.
-- Statements: 0 the first query, 1 the second.
unfoldable pub find_license_by_key : Crypto → Io → String → List License → Found License
find_license_by_key crypto io key licenses =
    elim (query (io 0) (select (λ l. l.key_hash == crypto.hash_key key) licenses)) [
      | found lic ↦ found lic
      | _ ↦ query (io 1) (select (λ l. l.license_key == key) licenses)
    ]

abbrev pub of_license : String → Activation → Bool
of_license license_id a = a.license_id == license_id

-- The columns of the table's unique constraint.
abbrev pub same_slot : String → String → Activation → Bool
same_slot license_id identifier a = a.license_id == license_id && a.identifier == identifier

unfoldable pub find_activation : Bool → String → String → List Activation → Found Activation
find_activation runs license_id identifier activations =
    query runs (select (same_slot license_id identifier) activations)

unfoldable pub touch_activation : Bool → ℕ → String → List Activation → List Activation
touch_activation runs now id activations =
    if runs
    then update (λ a. a.id == id) (λ a. record a { last_verified = now }) activations
    else activations

-- `none` is an error.
unfoldable pub delete_activation : Bool → String → List Activation → Option (List Activation)
delete_activation runs id activations =
    if runs then some (delete (λ a. a.id == id) activations) else none

unfoldable pub count_activations : String → List Activation → ℕ
count_activations license_id = count (of_license license_id)

pub data ActivateOutcome : Type 0 where
  activated : List Activation → ActivateOutcome
  limit_reached : ActivateOutcome
  not_activated : ActivateOutcome

abbrev free : Option Activation → Bool
free none = true
free (some a) = false

-- The transaction: 0 begin, 1 lock the license row, 2 count, 3 insert (which the unique
-- constraint may refuse), 4 commit. What does not commit is rolled back.
unfoldable pub activate_within_limit : Io → Activation → ℕ → List Activation → ActivateOutcome
unfolding count_activations
activate_within_limit io act max activations =
    if io 0 && io 1 && io 2
    then if leb max (count_activations act.license_id activations)
      then limit_reached
      else if io 3 && free (select (same_slot act.license_id act.identifier) activations) && io 4
      then activated (act ∷ activations)
      else not_activated
    else not_activated
