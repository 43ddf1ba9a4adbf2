-- ===== src/Text/Decimal.antt =====
-- Whole numbers in decimal: what the program uses of math/big's `String` and `SetString` and of
-- package strings.
pub mod RoundTrip
use sucopay.Prelude.{
  ℕ, zero, suc, ◌+◌, ◌-◌, ◌*◌, ◌/◌, ◌%◌, Bool, true, false, not, ◌&&◌, ◌||◌, [], ◌∷◌, Option, none,
  some, leb, ◌==◌, if◌then◌else◌, is_empty, all,
}
use sucopay.Text.{Text}
use sucopay.Text.Utf8.{between}

abbrev pub is_digit : ℕ → Bool
is_digit c = between b'0' b'9' c

-- The number that some digits write, after those that wrote `n`.
pub value_from : ℕ → Text → ℕ
value_from n [] = n
value_from n (c ∷ s) = value_from (n * 10 + (c - b'0')) s

-- The digits of `n` before those of `out`. The fuel is a number that `n` does not exceed.
print_from : ℕ → ℕ → Text → Text
print_from zero n out = out
print_from (suc fuel) n out = elim (n == 0) [
  | true ↦ out
  | false ↦ print_from fuel (n / 10) ((b'0' + n % 10) ∷ out)
]

-- `Int.String` of a number that is not negative.
unfoldable pub print : ℕ → Text
unfolding print_from
print n = if n == 0 then b'0' ∷ [] else print_from n n []

-- A sign and a magnitude, as `SetString` reads them.
pub data Signed : Type 0 where
  plus minus : ℕ → Signed

scan : (ℕ → Signed) → Text → Option Signed
unfolding value_from
scan sign s = if is_empty s || not (all is_digit s) then none else some (sign (value_from 0 s))

-- `SetString(s, 10)`: a sign or none, and one digit or more.
unfoldable pub set_string : Text → Option Signed
unfolding scan
set_string [] = none
set_string (c ∷ s) =
    if c == b'+' then scan plus s else if c == b'-' then scan minus s else scan plus (c ∷ s)

-- strings.Cut(s, "."): what stands before the first point, what stands after it, and whether there
-- is one.
pub cut : Text → Text × Text × Bool
cut [] = ([], [], false)
cut (c ∷ s) =
    let (before, after, found) = cut s in
    if c == b'.' then ([], s, true) else (c ∷ before, after, found)

-- strings.TrimRight(s, "0")
unfoldable pub trim_zeros : Text → Text
trim_zeros [] = []
trim_zeros (c ∷ s) = let rest = trim_zeros s in if is_empty rest && c == b'0' then [] else c ∷ rest
