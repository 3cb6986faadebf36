-- ===== src/Apperr.antt =====
-- pkg/apperr/errors.go: the errors that services return, and the results that carry them.
use Prim.Native.String.{◌++◌ as concat}
use saas_admin.Prelude.{ℕ, String, Option, none, some, List, []}

-- A value of an error's details: a number or a text.
pub data Detail : Type 0 where
  number : ℕ → Detail
  words : String → Detail

-- `Cause` is the text of the underlying error, which is never shown to a client.
pub record AppError : Type 0 where
  pub code : String
  pub message : String
  pub status : ℕ
  pub details : List (String × Detail)
  pub cause : Option String

abbrev pub new : ℕ → String → String → AppError
new status code message = record {
  code = code;
  message = message;
  status = status;
  details = [];
  cause = none;
}

abbrev pub wrap : ℕ → String → String → String → AppError
wrap status code message cause = record (new status code message) { cause = some cause }

abbrev pub with_details : AppError → List (String × Detail) → AppError
with_details e details = record e { details = details }

abbrev pub not_found : String → String → AppError
not_found entity id =
    new 404 (concat entity "_NOT_FOUND") (concat entity (concat " '" (concat id "' not found")))

abbrev pub bad_request : String → AppError
bad_request message = new 400 "BAD_REQUEST" message

abbrev pub conflict : String → String → AppError
conflict code message = new 409 code message

abbrev pub internal : String → AppError
internal cause = wrap 500 "INTERNAL_ERROR" "an internal error occurred" cause

pub data Result {ℓ} (A : Type ℓ) : Type ℓ where
  ok : A → Result A
  err : AppError → Result A
