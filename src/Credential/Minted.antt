-- ===== src/Credential/Minted.antt =====
-- What is minted is read back.
use sucopay.Prelude.{
  ℕ, zero, suc, ◌+◌, ◌*◌, ◌%◌, ◌/◌, ◌<◌, ◌≤◌, ◌≡◌, refl, true, List, [], ◌∷◌, ◌++◌, length, all,
  take, drop, ok, arith, all-take, ap, sym, ◌∙◌,
}
use mathlib.Core.List.{append-nil}
use sucopay.Text.{Text}
use sucopay.Text.Hex.{digit, decodes, encode_hex}
use sucopay.Text.Hex.Encode.{is_byte, length-encode_hex, encode_hex-digits}
use sucopay.Credential.{
  digit_value, decode_hex, parse_key, hex, change_at, stamped, grouped, new_id, is_lower_digit,
  has_shape, parse_id,
}

digit_value-digit : (n : ℕ) → n < 16 → digit_value (digit n) ≡ n
unfolding digit_value digit
digit_value-digit n h = ground arith

decode_hex-encode_hex : (bs : List ℕ) → all is_byte bs ≡ true → decode_hex (encode_hex bs) ≡ bs
unfolding decode_hex encode_hex
decode_hex-encode_hex [] h = refl
decode_hex-encode_hex (b ∷ bs) h =
    ground (arith, digit_value-digit (b / 16), digit_value-digit (b % 16), decode_hex-encode_hex bs)

-- A key that was written is read back.
pub parse_key-hex : (k : List ℕ) → all is_byte k ≡ true → length k ≡ 32 → parse_key (hex k) ≡ ok k
unfolding parse_key hex decodes
parse_key-hex k bytes long =
    rw (decode_hex-encode_hex k bytes)
      (ground (arith, length-encode_hex k, encode_hex-digits k bytes))

digit-is_lower_digit : (n : ℕ) → n < 16 → is_lower_digit (digit n) ≡ true
unfolding digit is_lower_digit
digit-is_lower_digit n h = ground arith

-- Bytes as digits fill as much of a group.
has_shape-encode_hex :
    (bs : List ℕ) (m n : ℕ) (ns : List ℕ) (s : Text)
    → all is_byte bs ≡ true
    → m ≡ 2 * length bs + n
    → has_shape m ns (encode_hex bs ++ s) ≡ has_shape n ns s
unfolding has_shape encode_hex
has_shape-encode_hex [] m n ns s h e = let same : m ≡ n = omega arith in rw same refl
has_shape-encode_hex (b ∷ bs) zero n ns s h e = absurd (omega arith)
has_shape-encode_hex (b ∷ bs) (suc zero) n ns s h e = absurd (omega arith)
has_shape-encode_hex (b ∷ bs) (suc (suc m)) n ns s h e =
    let small : b < 256 = ground arith in
    let rest = has_shape-encode_hex bs m n ns s (ground arith) (omega arith) in
    ground (
      arith,
      rest,
      digit-is_lower_digit (b / 16) (omega arith),
      digit-is_lower_digit (b % 16) (omega arith),
    )

module _ (f : ℕ → ℕ) where
  length-change_at : (n : ℕ) (bs : List ℕ) → length (change_at n f bs) ≡ length bs
  unfolding change_at
  length-change_at n [] = refl
  length-change_at zero (b ∷ bs) = refl
  length-change_at (suc n) (b ∷ bs) = ground (arith, length-change_at n bs)

  all-change_at :
      ((b : ℕ) → is_byte (f b) ≡ true)
      → (n : ℕ) (bs : List ℕ) → all is_byte bs ≡ true
      → all is_byte (change_at n f bs) ≡ true
  unfolding change_at
  all-change_at fits n [] h = refl
  all-change_at fits zero (b ∷ bs) h = ground (arith, fits b)
  all-change_at fits (suc n) (b ∷ bs) h = ground (arith, all-change_at fits n bs)

all-drop : (n : ℕ) (bs : List ℕ) → all is_byte bs ≡ true → all is_byte (drop n bs) ≡ true
all-drop zero bs h = h
all-drop (suc n) [] h = refl
all-drop (suc n) (b ∷ bs) h = all-drop n bs (ground arith)

length-take_le : (n : ℕ) (bs : List ℕ) → n ≤ length bs → length (take n bs) ≡ n
length-take_le zero bs h = refl
length-take_le (suc n) [] h = absurd (omega arith)
length-take_le (suc n) (b ∷ bs) h = ground (arith, length-take_le n bs (omega arith))

length-drop_le : (n : ℕ) (bs : List ℕ) → n ≤ length bs → length (drop n bs) + n ≡ length bs
length-drop_le zero bs h = omega arith
length-drop_le (suc n) [] h = absurd (omega arith)
length-drop_le (suc n) (b ∷ bs) h = omega (arith, length-drop_le n bs (omega arith))

-- A group of `n` bytes and a dash.
has_shape-group :
    (bs : List ℕ) (n m : ℕ) (ns : List ℕ) (s : Text)
    → all is_byte bs ≡ true
    → n ≡ 2 * length bs
    → has_shape n (m ∷ ns) (encode_hex bs ++ b'-' ∷ s) ≡ has_shape m ns s
unfolding has_shape
has_shape-group bs n m ns s h e =
    let spent = has_shape-encode_hex bs n 0 (m ∷ ns) (b'-' ∷ s) h (omega arith) in
    ground (arith, spent)

length-part : (n k : ℕ) (b : List ℕ) → n + k ≤ length b → length (take k (drop n b)) ≡ k
length-part n k b h = length-take_le k (drop n b) (omega (arith, length-drop_le n b (omega arith)))

has_shape-part :
    (b : List ℕ) (n k w m : ℕ) (ns : List ℕ) (s : Text)
    → all is_byte b ≡ true
    → n + k ≤ length b
    → w ≡ 2 * k
    → has_shape w (m ∷ ns) (encode_hex (take k (drop n b)) ++ b'-' ∷ s) ≡ has_shape m ns s
has_shape-part b n k w m ns s h fits wide =
    has_shape-group (take k (drop n b)) w m ns s (all-take is_byte k (drop n b) (all-drop n b h))
      (omega (arith, length-part n k b fits))

has_shape-grouped :
    (b : List ℕ)
    → all is_byte b ≡ true
    → length b ≡ 16
    → has_shape 8 (4 ∷ 4 ∷ 4 ∷ 12 ∷ []) (grouped b) ≡ true
unfolding grouped has_shape
has_shape-grouped b h long =
    let tail = encode_hex (drop 10 b) in
    let size : length (drop 10 b) ≡ 6 = omega (arith, length-drop_le 10 b (omega arith)) in
    let end : tail ++ [] ≡ tail = append-nil tail in
    let after_8 : Text = encode_hex (take 2 (drop 8 b)) ++ b'-' ∷ tail in
    let after_6 : Text = encode_hex (take 2 (drop 6 b)) ++ b'-' ∷ after_8 in
    let after_4 : Text = encode_hex (take 2 (drop 4 b)) ++ b'-' ∷ after_6 in
    has_shape-part b 0 4 8 4 (4 ∷ 4 ∷ 12 ∷ []) after_4 h (omega arith) (omega arith)
    ∙ has_shape-part b 4 2 4 4 (4 ∷ 12 ∷ []) after_6 h (omega arith) (omega arith)
    ∙ has_shape-part b 6 2 4 4 (12 ∷ []) after_8 h (omega arith) (omega arith)
    ∙ has_shape-part b 8 2 4 12 [] tail h (omega arith) (omega arith)
    ∙ ap (has_shape 12 []) (sym end)
    ∙ has_shape-encode_hex (drop 10 b) 12 0 [] [] (all-drop 10 b h) (omega (arith, size))

-- An identifier that was minted is one that ParseID reads.
pub parse_id-new_id :
    (b : List ℕ) → all is_byte b ≡ true → length b ≡ 16 → parse_id (new_id b) ≡ ok (new_id b)
unfolding parse_id new_id stamped
parse_id-new_id b h long =
    let six = λ (x : ℕ). x % 16 + 64 in
    let eight = λ (x : ℕ). x % 64 + 128 in
    let bytes =
      all-change_at eight (λ x. ground arith) 8 (change_at 6 six b)
        (all-change_at six (λ x. ground arith) 6 b h) in
    let size : length (stamped b) ≡ 16 =
      ground (arith, length-change_at eight 8 (change_at 6 six b), length-change_at six 6 b) in
    ground (arith, has_shape-grouped (stamped b) bytes size)
