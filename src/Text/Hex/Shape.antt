-- ===== src/Text/Hex/Shape.antt =====
-- What `hexOfLength` accepts.
use sucopay.Prelude.{
  ℕ, ◌≡◌, ◌↔◌, refl, Bool, true, ◌&&◌, ◌||◌, [], ◌∷◌, map, all, length, ok, arith, ◌==◌,
}
use sucopay.Text.{Text, text_eq}
use sucopay.Text.Utf8.{between}
use sucopay.Text.Hex.{is_hex_digit, decodes, lower, hex_of_length}

-- `0` to `9` and `a` to `f`
unfoldable pub is_lower_hex : ℕ → Bool
is_lower_hex c = between b'0' b'9' c || between b'a' b'f' c

lower_digit : (c : ℕ) → (is_hex_digit c && lower c == c) ≡ is_lower_hex c
unfolding is_hex_digit lower is_lower_hex
lower_digit c = ground arith

lower_digits : (s : Text) → (all is_hex_digit s && text_eq (map lower s) s) ≡ all is_lower_hex s
unfolding text_eq
lower_digits [] = refl
lower_digits (c ∷ s) = ground (arith, lower_digit c, lower_digits s)

-- Exactly thirty-two lowercase hexadecimal digits.
pub hex_of_length-32 :
    (s : Text) → (hex_of_length s 32 ≡ ok tt) ↔ ((length s ≡ 32) × (all is_lower_hex s ≡ true))
unfolding hex_of_length decodes
hex_of_length-32 s = ground (arith, lower_digits s)
