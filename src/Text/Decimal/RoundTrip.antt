-- ===== src/Text/Decimal/RoundTrip.antt =====
-- The digits that are printed are read back as the number, and how many there are.
use native.Mathlib.Nat.{pow-suc}
use sucopay.Prelude.{
  ℕ, zero, suc, ◌+◌, ◌-◌, ◌*◌, ◌/◌, ◌%◌, ◌^◌, ◌≤◌, ◌<◌, ◌≡◌, refl, ◌∙◌, ap, inl, inr, true, false,
  ◌&&◌, [], ◌∷◌, ◌++◌, some, ◌==◌, if◌then◌else◌, is_empty, all, arith, length, replicate,
  Bool-cases, is_empty_pos,
}
use sucopay.Text.{Text}
use sucopay.Text.Decimal.{
  is_digit, value_from, print_from, print, plus, set_string, cut, trim_zeros,
}

last_digit : (n : ℕ) (out : Text) → value_from (n / 10) ((b'0' + n % 10) ∷ out) ≡ value_from n out
unfolding value_from
last_digit n out =
    ap (λ k. value_from k out) (let e : n / 10 * 10 + (b'0' + n % 10 - b'0') ≡ n = omega arith in e)

value_from-print_from :
    (fuel n : ℕ) (out : Text) → n ≤ fuel → value_from 0 (print_from fuel n out) ≡ value_from n out
unfolding value_from print_from
value_from-print_from zero n out h = rw (let e : n ≡ 0 = omega arith in e)
value_from-print_from (suc fuel) n out h =
    ground (arith, value_from-print_from fuel (n / 10) ((b'0' + n % 10) ∷ out), last_digit n out)

digits-print_from :
    (fuel n : ℕ) (out : Text)
    → all is_digit out ≡ true
    → all is_digit (print_from fuel n out) ≡ true
unfolding print_from
digits-print_from zero n out h = h
digits-print_from (suc fuel) n out h =
    ground (arith, digits-print_from fuel (n / 10) ((b'0' + n % 10) ∷ out))

-- A number below the k-th power of ten has at most k digits.
length-print_from :
    (k fuel n : ℕ) (out : Text) → n < 10 ^ k → length (print_from fuel n out) ≤ k + length out
unfolding print_from
length-print_from k zero n out h = omega arith
length-print_from zero (suc fuel) n out h = ground arith
length-print_from (suc k) (suc fuel) n out h =
    let p : 10 ^ suc k ≡ 10 ^ k * 10 = pow-suc 10 k in
    ground (arith, length-print_from k fuel (n / 10) ((b'0' + n % 10) ∷ out))

grows-print_from : (fuel n : ℕ) (out : Text) → length out ≤ length (print_from fuel n out)
unfolding print_from
grows-print_from zero n out = omega arith
grows-print_from (suc fuel) n out =
    ground (arith, grows-print_from fuel (n / 10) ((b'0' + n % 10) ∷ out))

pub value_from-print : (n : ℕ) → value_from 0 (print n) ≡ n
unfolding print value_from
value_from-print n = ground (arith, value_from-print_from n n [])

pub digits-print : (n : ℕ) → all is_digit (print n) ≡ true
unfolding print
digits-print n = ground (arith, digits-print_from n n [])

pub length-print : (k n : ℕ) → n < 10 ^ suc k → length (print n) ≤ suc k
unfolding print
length-print k n h = ground (arith, length-print_from (suc k) n n [])

pub print-ne-nil : (n : ℕ) → is_empty (print n) ≡ false
unfolding print print_from
print-ne-nil zero = refl
print-ne-nil (suc k) =
    is_empty_pos (print (suc k))
      (ground (arith, grows-print_from k (suc k / 10) ((b'0' + suc k % 10) ∷ [])))

abbrev filled : Text → ℕ → Text
filled s n = s ++ replicate (n - length s) b'0'

filled-cons : (c : ℕ) (s : Text) (n : ℕ) → filled (c ∷ s) (suc n) ≡ c ∷ filled s n
filled-cons c s n =
    ap (λ k. c ∷ (s ++ replicate k b'0'))
      (let e : suc n - suc (length s) ≡ n - length s = omega arith in e)

filled-nil : (n : ℕ) → filled [] n ≡ replicate n b'0'
filled-nil n = ap (λ k. replicate k b'0') (let e : n - 0 ≡ n = omega arith in e)

trimmed-fill :
    (c : ℕ) (s r : Text)
    → filled r (length s) ≡ s
    → filled (if is_empty r && c == b'0' then [] else c ∷ r) (suc (length s)) ≡ c ∷ s
trimmed-fill c s [] h = elim (Bool-cases (c == b'0')) [
  | inl z ↦
      let zero_digit : c ≡ b'0' = ground arith in
      rw z (cc (filled-nil (suc (length s)), filled-nil (length s), h))
  | inr d ↦ rw d (filled-cons c [] (length s) ∙ ap (λ t. c ∷ t) h)
]
trimmed-fill c s (x ∷ xs) h = filled-cons c (x ∷ xs) (length s) ∙ ap (λ t. c ∷ t) h

-- What the point and the zeros at the end of a fraction are taken off and put back by.
pub trim_zeros-fill :
    (s : Text) → trim_zeros s ++ replicate (length s - length (trim_zeros s)) b'0' ≡ s
unfolding trim_zeros
trim_zeros-fill [] = refl
trim_zeros-fill (c ∷ s) = trimmed-fill c s (trim_zeros s) (trim_zeros-fill s)

pub length-trim_zeros : (s : Text) → length (trim_zeros s) ≤ length s
unfolding trim_zeros
length-trim_zeros [] = omega arith
length-trim_zeros (c ∷ s) = ground (arith, length-trim_zeros s)

pub digits-trim_zeros : (s : Text) → all is_digit s ≡ true → all is_digit (trim_zeros s) ≡ true
unfolding trim_zeros
digits-trim_zeros [] h = refl
digits-trim_zeros (c ∷ s) h = ground (arith, digits-trim_zeros s)

pub cut-digits : (s : Text) → all is_digit s ≡ true → cut s ≡ (s, [], false)
unfolding cut
cut-digits [] h = refl
cut-digits (c ∷ s) h = ground (arith, cut-digits s)

pub cut-point : (s t : Text) → all is_digit s ≡ true → cut (s ++ b'.' ∷ t) ≡ (s, t, true)
unfolding cut
cut-point [] t h = refl
cut-point (c ∷ s) t h = ground (arith, cut-point s t)

pub value_from-zeros : (k : ℕ) (s : Text) → value_from 0 (replicate k b'0' ++ s) ≡ value_from 0 s
unfolding value_from
value_from-zeros zero s = refl
value_from-zeros (suc k) s = value_from-zeros k s

pub set_string-digits :
    (s : Text)
    → all is_digit s ≡ true
    → is_empty s ≡ false
    → set_string s ≡ some (plus (value_from 0 s))
unfolding set_string
set_string-digits [] h e = cc
set_string-digits (c ∷ s) h e = ground arith
