-- ===== src/Database.antt =====
-- What the store's routines share: a statement of a routine may fail to run, and a query for one
-- row answers with the row, with `sql.ErrNoRows`, or with another error.
use saas_admin.Prelude.{ℕ, String, Bool, true, false, Option, none, some}

-- `io n`: the n-th statement of the routine runs. A routine whose statement fails stops there.
abbrev pub Io : Type 0
Io = ℕ → Bool

-- Every statement runs.
abbrev pub healthy : Io
healthy n = true

pub data Found {ℓ} (A : Type ℓ) : Type ℓ where
  found : A → Found A
  no_rows : Found A
  failed : Found A

abbrev pub rows {ℓ} : {A : Type ℓ} → Option A → Found A
rows none = no_rows
rows (some a) = found a

-- A query that runs, or fails.
abbrev pub query {ℓ} : {A : Type ℓ} → Bool → Option A → Found A
query true answer = rows answer
query false answer = failed

-- The cause that a failed statement leaves in an internal error.
abbrev pub db_error : String
db_error = "database error"
