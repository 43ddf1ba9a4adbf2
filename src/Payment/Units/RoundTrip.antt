-- ===== src/Payment/Units/RoundTrip.antt =====
-- What is written of an amount is read back as that amount.
use sucopay.Prelude.{
  ℕ, ◌+◌, ◌-◌, ◌^◌, ◌≤◌, ◌<◌, max, ◌≡◌, refl, sym, ap, ◌∙◌, inl, inr, true, false, not, ◌&&◌, [],
  ◌∷◌, ◌++◌, Option, none, some, ◌==◌, length, take, drop, replicate, all, is_empty, ok, get_or,
  arith, Bool-cases, &&_parts, length-append, all-append, all-replicate, take-append-drop,
  length-take, length-drop, length-replicate, is_empty_pos,
}
use mathlib.Core.List.{append-nil}
use mathlib.Core.Path.{subst₂}
use sucopay.Text.{Text}
use sucopay.Text.Decimal.{is_digit, value_from, print, trim_zeros}
use sucopay.Text.Decimal.RoundTrip.{
  value_from-print, digits-print, length-print, print-ne-nil, trim_zeros-fill, length-trim_zeros,
  digits-trim_zeros, cut-digits, cut-point, value_from-zeros, set_string-digits,
}
use sucopay.Payment.Asset
use sucopay.Payment.Asset.{Asset, max_asset_decimals}
use sucopay.Payment.Money.{pos, Money, is_set}
use sucopay.Payment.Units.{
  is_digits, split_units, with_point, point_at, padded, parse_money, parse_units_int, parse_units,
  digits, units, max_amount_digits,
}

parse_money-print :
    (a : Asset) (n : ℕ)
    → Asset.is_set a ≡ true
    → n < 10 ^ max_amount_digits
    → parse_money a (print n) ≡ ok (record { amount = some n; asset = a })
unfolding parse_money
parse_money-print a n set small =
    rw (set_string-digits (print n) (digits-print n) (print-ne-nil n), value_from-print n)
      (ground (arith, length-print 77 n small))

parse_money-print_of :
    (a : Asset) (o : Option ℕ)
    → is_set (record { amount = o; asset = a }) ≡ true
    → get_or o 0 < 10 ^ max_amount_digits
    → parse_money a (print (get_or o 0)) ≡ ok (record { amount = o; asset = a })
unfolding is_set
parse_money-print_of a none set small = absurd (ground arith)
parse_money-print_of a (some n) set small = parse_money-print a n (&&_parts _ true set).0 small

-- The digits that a row and an answer hold of an amount are read back as the amount, if it has at
-- most 78 digits.
pub parse_money-digits :
    (m : Money)
    → is_set m ≡ true
    → get_or m.amount 0 < 10 ^ max_amount_digits
    → parse_money m.asset (digits m) ≡ ok m
unfolding digits
parse_money-digits m set small = parse_money-print_of m.asset m.amount set small

-- `split_units` of digits, with a point and without one.
split_units-with_point :
    (w f : Text)
    → is_digits w ≡ true
    → all is_digit f ≡ true
    → length w + length f ≤ max_amount_digits
    → split_units (with_point w f) ≡ ok (w, f)
unfolding split_units with_point
split_units-with_point w [] dw df short =
    rw (cut-digits w (&&_parts (not (is_empty w)) _ dw).1) (ground arith)
split_units-with_point w (c ∷ f) dw df short =
    let l = length-append w (b'.' ∷ c ∷ f) in
    rw (cut-point w (c ∷ f) (&&_parts (not (is_empty w)) _ dw).1) (ground (arith, l))

is_digits-parts : (w : Text) → is_digits w ≡ true → (is_empty w ≡ false) × (all is_digit w ≡ true)
is_digits-parts [] h = cc
is_digits-parts (c ∷ w) h = (refl, h)

is_empty-append : (w f : Text) → is_empty w ≡ false → is_empty (w ++ f) ≡ false
is_empty-append [] f h = cc
is_empty-append (c ∷ w) f h = refl

-- Some digits with the last `length f` of them behind a point, and no zeros at the end.
parse_units_int-with_point :
    (w f : Text)
    → is_digits w ≡ true
    → all is_digit f ≡ true
    → length w + length f ≤ max_amount_digits
    → parse_units_int (with_point w (trim_zeros f)) (length f)
      ≡ ok (some (pos (value_from 0 (w ++ f))))
unfolding parse_units_int
parse_units_int-with_point w f dw df short =
    let fits = length-trim_zeros f in
    let parts = is_digits-parts w dw in
    let all_digits : all is_digit (w ++ f) ≡ true = rw (all-append is_digit w f, parts.1, df) in
    rw (split_units-with_point w (trim_zeros f) dw (digits-trim_zeros f df) (omega arith)) (
      rw (trim_zeros-fill f) (
        ground (
          arith,
          set_string-digits (w ++ f) all_digits (is_empty-append w f parts.0),
          length-append w f,
        )))

module _ (d : Text) (places : ℕ) (dd : all is_digit d ≡ true) where
  padded-digits : all is_digit (padded d places) ≡ true
  unfolding padded
  padded-digits = ground (
    arith,
    all-append is_digit (replicate (places - length d + 1) b'0') d,
    all-replicate is_digit (places - length d + 1) b'0' refl,
  )

  length-padded : length (padded d places) ≡ max (length d) (places + 1)
  unfolding padded
  length-padded = ground (
    arith,
    length-append (replicate (places - length d + 1) b'0') d,
    length-replicate {A = ℕ} (places - length d + 1) b'0',
  )

  value_from-padded : value_from 0 (padded d places) ≡ value_from 0 d
  unfolding padded
  value_from-padded = ground (arith, value_from-zeros (places - length d + 1) d)

-- Digits with the point put in are read back as the number.
point_at-read :
    (d : Text) (places : ℕ)
    → all is_digit d ≡ true
    → places < length d
    → length d ≤ max_amount_digits
    → parse_units_int (point_at d places) places ≡ ok (some (pos (value_from 0 d)))
unfolding point_at
point_at-read d places dd many fits =
    let at = length d - places in
    let w = take at d in
    let f = drop at d in
    let whole : w ++ f ≡ d = take-append-drop at d in
    let both : (all is_digit w && all is_digit f) ≡ true =
      sym (all-append is_digit w f) ∙ ap (all is_digit) whole ∙ dd in
    let parts = &&_parts (all is_digit w) (all is_digit f) both in
    let wide : length w ≡ at = omega (arith, length-take at d) in
    let narrow : length f ≡ places = omega (arith, length-drop at d) in
    let some_whole : is_empty w ≡ false = is_empty_pos w (omega arith) in
    let good : is_digits w ≡ true = rw (some_whole, parts.0) in
    subst₂
      (λ k t. parse_units_int (with_point w (trim_zeros f)) k ≡ ok (some (pos (value_from 0 t))))
      narrow whole (parse_units_int-with_point w f good parts.1 (omega arith))

whole_units-read :
    (n : ℕ) → n < 10 ^ max_amount_digits → parse_units_int (print n) 0 ≡ ok (some (pos n))
unfolding with_point trim_zeros
whole_units-read n small =
    let good : is_digits (print n) ≡ true = rw (print-ne-nil n, digits-print n) in
    let few = length-print 77 n small in
    parse_units_int-with_point (print n) [] good refl (omega arith)
    ∙ ap (λ t. ok (some (pos (value_from 0 t)))) (append-nil (print n))
    ∙ ap (λ k. ok (some (pos k))) (value_from-print n)

split_units-read :
    (n places : ℕ)
    → places ≤ max_asset_decimals
    → n < 10 ^ max_amount_digits
    → parse_units_int (point_at (padded (print n) places) places) places ≡ ok (some (pos n))
split_units-read n places few small =
    let long = length-padded (print n) places (digits-print n) in
    let fits = length-print 77 n small in
    point_at-read (padded (print n) places) places (padded-digits (print n) places (digits-print n))
      (omega arith) (omega arith)
    ∙ ap (λ k. ok (some (pos k)))
        (value_from-padded (print n) places (digits-print n) ∙ value_from-print n)

units_read :
    (a : Asset) (n : ℕ)
    → Asset.is_set a ≡ true
    → a.decimals ≤ max_asset_decimals
    → n < 10 ^ max_amount_digits
    → parse_units a (units (record { amount = some n; asset = a }))
      ≡ ok (record { amount = some n; asset = a })
unfolding parse_units units
units_read a n set few small = elim (Bool-cases (a.decimals == 0)) [
  | inl whole ↦
      let none_after : a.decimals ≡ 0 = ground arith in
      let read = whole_units-read n small in ground arith
  | inr split ↦ let read = split_units-read n a.decimals few small in ground arith
]

units_read_of :
    (a : Asset) (o : Option ℕ)
    → is_set (record { amount = o; asset = a }) ≡ true
    → a.decimals ≤ max_asset_decimals
    → get_or o 0 < 10 ^ max_amount_digits
    → parse_units a (units (record { amount = o; asset = a }))
      ≡ ok (record { amount = o; asset = a })
unfolding is_set
units_read_of a none set few small = absurd (ground arith)
units_read_of a (some n) set few small = units_read a n (&&_parts _ true set).0 few small

-- What `Units` writes of an amount, in the asset's own units, `ParseUnits` reads back as the same
-- amount of the same asset, if the asset divides no further than assets may and the amount has at
-- most 78 digits in its smallest unit.
pub parse_units-units :
    (m : Money)
    → is_set m ≡ true
    → m.asset.decimals ≤ max_asset_decimals
    → get_or m.amount 0 < 10 ^ max_amount_digits
    → parse_units m.asset (units m) ≡ ok m
parse_units-units m set few small = units_read_of m.asset m.amount set few small
