-- ===== src/Payment/Units.antt =====
-- internal/payment/money.go: amounts as they are written, in the smallest unit (`ParseMoney`, and the
-- digits that a row and an answer hold) and in the asset's own units (`Units`, `ParseUnits`).
pub mod RoundTrip
pub mod Parsed
use sucopay.Prelude.{
  ℕ, ◌+◌, ◌-◌, Bool, true, not, ◌&&◌, ◌||◌, [], ◌∷◌, ◌++◌, Option, none, some, ltb, leb, ◌==◌,
  if◌then◌else◌, length, take, drop, replicate, all, is_empty, Result, ok, err, ◌>>=◌, ◌>>◌, get_or,
}
use sucopay.Text.{Text, codes}
use sucopay.Text.Decimal.{is_digit, print, Signed, plus, minus, set_string, cut, trim_zeros}
use sucopay.Payment.Asset.{Asset}
use sucopay.Payment.Money.{
  ℤ, pos, negsuc, Money, MoneyError, is_set, new_money, too_many_characters, not_whole_number,
  not_amount, too_many_places, too_many_digits,
}

-- `MaxAmountDigits`
abbrev pub max_amount_digits : ℕ
max_amount_digits = 78

-- The `big.Int` of a sign and a magnitude; there is one zero.
abbrev to_int : Signed → ℤ
to_int (plus n) = pos n
to_int (minus n) = if n == 0 then pos 0 else negsuc (n - 1)

money_of_string : Asset → Text → Option Signed → Result MoneyError Money
unfolding new_money
money_of_string asset amount none = err (not_whole_number amount)
money_of_string asset amount (some n) = new_money asset (some (to_int n))

-- `ParseMoney`
unfoldable pub parse_money : Asset → Text → Result MoneyError Money
unfolding money_of_string
parse_money asset amount =
    if ltb max_amount_digits (length amount)
    then err (too_many_characters (length amount) max_amount_digits)
    else money_of_string asset amount (set_string amount)

-- `isDigits`
abbrev pub is_digits : Text → Bool
is_digits s = not (is_empty s) && all is_digit s

split_cut : Text → Text × Text × Bool → Result MoneyError (Text × Text)
split_cut amount (whole, fraction, has_point) =
    if not (is_digits whole) || has_point && not (is_digits fraction)
    then err (not_amount amount)
    else ok (whole, fraction)

-- `splitUnits`
pub split_units : Text → Result MoneyError (Text × Text)
unfolding split_cut
split_units amount =
    if ltb (max_amount_digits + 1) (length amount)
    then err (too_many_characters (length amount) (max_amount_digits + 1))
    else split_cut amount (cut amount)

-- The number that `parseUnits` reads its digits as. It does not look at whether `SetString` read one,
-- and hands on the nil that stands for none.
read_digits : Text → Option ℤ
read_digits digits = elim (set_string digits) [ none ↦ none | some n ↦ some (to_int n) ]

-- `parseUnits`
unfoldable pub parse_units_int : Text → ℕ → Result MoneyError (Option ℤ)
unfolding split_units read_digits
parse_units_int amount decimals = do
  (whole, fraction) ← split_units amount
  if ltb decimals (length fraction)
      then err (too_many_places amount decimals)
      else let digits = whole ++ (fraction ++ replicate (decimals - length fraction) b'0') in
        if ltb max_amount_digits (length digits)
        then err (too_many_digits amount (length digits))
        else ok (read_digits digits)

-- `ParseUnits`
unfoldable pub parse_units : Asset → Text → Result MoneyError Money
unfolding new_money
parse_units asset amount = do n ← parse_units_int amount asset.decimals; new_money asset n

-- `digits` of internal/payment/postgres.go, and `Amount().String()` where the amount is answered.
unfoldable pub digits : Money → Text
digits m = print (get_or m.amount 0)

-- The digits of `Units`, filled up from the left to have one before the point.
unfoldable pub padded : Text → ℕ → Text
padded digits places =
    if leb (length digits) places
    then replicate (places - length digits + 1) b'0' ++ digits
    else digits

with_point : Text → Text → Text
with_point whole fraction = if is_empty fraction then whole else whole ++ b'.' ∷ fraction

unfoldable pub point_at : Text → ℕ → Text
unfolding with_point
point_at digits places =
    let at = length digits - places in with_point (take at digits) (trim_zeros (drop at digits))

-- `Money.Units`
unfoldable pub units : Money → Text
unfolding is_set
units m =
    if not (is_set m)
    then codes "no amount"
    else let digits = print (get_or m.amount 0) in
      let places = m.asset.decimals in
      if places == 0 then digits else point_at (padded digits places) places
