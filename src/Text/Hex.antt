-- ===== src/Text/Hex.antt =====
-- Hexadecimal identifiers: `hexOfLength` of internal/payment/payment.go, and what it uses of the
-- standard library's hex.DecodeString, hex.EncodeToString and strings.ToLower.
pub mod Encode
pub mod Shape
use sucopay.Prelude.{
  ℕ, zero, suc, ◌+◌, ◌-◌, ◌*◌, ◌/◌, ◌%◌, ◌<◌, ◌≡◌, refl, Bool, true, false, not, ◌&&◌, ◌||◌, List,
  [], ◌∷◌, arith, ltb, ◌==◌, if◌then◌else◌, length, all, All, map, Result, ok, err,
}
use sucopay.Text.{Text, text_eq}
use sucopay.Text.Utf8.{between}

pub data HexError : Type 0 where
  wrong_length : ℕ → ℕ → HexError
  not_hexadecimal : HexError
  not_lowercase : HexError

unfoldable pub is_hex_digit : ℕ → Bool
is_hex_digit c = between b'0' b'9' c || (between b'a' b'f' c || between b'A' b'F' c)

-- Whether hex.DecodeString returns no error: an even number of hexadecimal digits.
unfoldable pub decodes : Text → Bool
unfolding is_hex_digit
decodes s = length s % 2 == 0 && all is_hex_digit s

-- strings.ToLower at the bytes of ASCII, which is where it is called.
lower : ℕ → ℕ
lower c = if between b'A' b'Z' c then c + 32 else c

-- `hexOfLength`
unfoldable pub hex_of_length : Text → ℕ → Result HexError (Unit {0})
unfolding decodes lower
hex_of_length s n =
    if not (length s == n)
    then err (wrong_length n (length s))
    else if not (decodes s)
    then err not_hexadecimal
    else if not (text_eq (map lower s) s)
    then err not_lowercase
    else ok tt

unfoldable pub digit : ℕ → ℕ
digit n = if ltb n 10 then b'0' + n else b'a' + (n - 10)

-- hex.EncodeToString
unfoldable pub encode_hex : List ℕ → Text
unfolding digit
encode_hex [] = []
encode_hex (b ∷ bs) = digit (b / 16) ∷ digit (b % 16) ∷ encode_hex bs
