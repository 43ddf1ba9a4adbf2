-- ===== src/Text/Hex/Encode.antt =====
-- The identifiers that the program mints have the shape that it asks of one.
use sucopay.Prelude.{
  ℕ, ◌*◌, ◌/◌, ◌%◌, ◌<◌, ◌≡◌, refl, Bool, true, List, [], ◌∷◌, arith, length, all, map, ok, ltb,
}
use sucopay.Text.{text_eq_refl}
use sucopay.Text.Hex.{is_hex_digit, lower, digit, encode_hex, hex_of_length}

abbrev pub is_byte : ℕ → Bool
is_byte b = ltb b 256

pub digit-is_hex_digit : (n : ℕ) → n < 16 → is_hex_digit (digit n) ≡ true
unfolding digit is_hex_digit
digit-is_hex_digit n h = ground arith

lower-digit : (n : ℕ) → n < 16 → lower (digit n) ≡ digit n
unfolding digit lower
lower-digit n h = ground arith

pub length-encode_hex : (bs : List ℕ) → length (encode_hex bs) ≡ 2 * length bs
unfolding encode_hex
length-encode_hex [] = refl
length-encode_hex (b ∷ bs) = omega (arith, length-encode_hex bs)

pub encode_hex-digits :
    (bs : List ℕ) → all is_byte bs ≡ true → all is_hex_digit (encode_hex bs) ≡ true
unfolding encode_hex
encode_hex-digits [] h = refl
encode_hex-digits (b ∷ bs) h =
    ground (arith, digit-is_hex_digit (b / 16), digit-is_hex_digit (b % 16), encode_hex-digits bs)

encode_hex-lower : (bs : List ℕ) → all is_byte bs ≡ true → map lower (encode_hex bs) ≡ encode_hex bs
unfolding encode_hex
encode_hex-lower [] h = refl
encode_hex-lower (b ∷ bs) h =
    ground (arith, lower-digit (b / 16), lower-digit (b % 16), encode_hex-lower bs)

-- Hexadecimal of `n` bytes is `2 * n` lowercase hexadecimal characters.
pub hex_of_length-encode_hex :
    (bs : List ℕ) → all is_byte bs ≡ true → hex_of_length (encode_hex bs) (2 * length bs) ≡ ok tt
unfolding hex_of_length
hex_of_length-encode_hex bs h =
    rw (encode_hex-lower bs h)
      (ground (arith, text_eq_refl (encode_hex bs), length-encode_hex bs, encode_hex-digits bs h))
