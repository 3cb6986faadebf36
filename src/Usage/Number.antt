-- ===== src/Usage/Number.antt =====
-- The int64 values of internal/service/usage.go, as bit patterns, and Go's `strconv.ParseInt`.
use saas_admin.Prelude.{
  ℕ, ◌+◌, ◌-◌, ◌*◌, ◌%◌, ◌^◌, min, String, Bool, ◌&&◌, Option, none, some, ltb, leb, nat_eq,
  if◌then◌else◌,
}
use Prim.Native.Char.{Char, code}
use Prim.Native.String.{[], ◌∷◌}

-- `x > 0`
unfoldable pub positive_int64 : ℕ → Bool
positive_int64 x = ltb 0 x && ltb x (2 ^ 63)

abbrev pub minus_one : ℕ
minus_one = 2 ^ 64 - 1

-- `a - b` for `b` within 64 bits.
abbrev pub sub_int64 : ℕ → ℕ → ℕ
sub_int64 a b = (a + (2 ^ 64 - b)) % 2 ^ 64

abbrev digit : Char → Option ℕ
digit c = if leb 48 (code c) && leb (code c) 57 then some (code c - 48) else none

-- The loop of `ParseUint` in base 10: `none` is a syntax error; a value out of range ends the loop.
unfoldable pub parse_digits : ℕ → String → Option ℕ
parse_digits n [] = some n
parse_digits n (c ∷ s) =
    let rest = parse_digits (n * 10 + (code c - 48)) s in
    elim (digit c) [
      | none ↦ none
      | some d ↦ if leb (2 ^ 64) (n * 10 + d) then some (2 ^ 64 - 1) else rest
    ]

-- `ParseUint`, which refuses the empty text.
abbrev pub parse_uint64 : String → Option ℕ
parse_uint64 [] = none
parse_uint64 (c ∷ s) = parse_digits 0 (c ∷ s)

abbrev positive_of : Option ℕ → ℕ
positive_of none = 0
positive_of (some n) = min n (2 ^ 63 - 1)

abbrev negative_of : Option ℕ → ℕ
negative_of none = 0
negative_of (some n) = (2 ^ 64 - min n (2 ^ 63)) % 2 ^ 64

-- The value of `ParseInt(s, 10, 64)`, whose error the source ignores: 0 for what is no number, the
-- nearest int64 for what is out of range.
unfoldable pub parse_int64 : String → ℕ
unfolding parse_digits
parse_int64 [] = 0
parse_int64 (c ∷ s) =
    if nat_eq (code c) 43
    then positive_of (parse_uint64 s)
    else if nat_eq (code c) 45
    then negative_of (parse_uint64 s)
    else positive_of (parse_uint64 (c ∷ s))
