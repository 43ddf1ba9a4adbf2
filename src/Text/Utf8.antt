-- ===== src/Text/Utf8.antt =====
-- How Go reads the code points of a string (`for _, r := range s`, `utf8.DecodeRuneInString`): the
-- well-formed sequences of UTF-8, and U+FFFD of width one for any byte that begins none.
pub mod RoundTrip
use sucopay.Prelude.{
  ℕ, zero, suc, ◌+◌, ◌-◌, ◌*◌, ◌/◌, ◌%◌, ◌≡◌, refl, Bool, true, false, ◌&&◌, ◌||◌, List, [], ◌∷◌,
  ◌++◌, arith, leb, ltb, ◌==◌, if◌then◌else◌, length,
}
use sucopay.Text.{Text}

-- `utf8.RuneError`.
abbrev pub rune_error : ℕ
rune_error = 0xfffd

abbrev pub between : ℕ → ℕ → ℕ → Bool
between lo hi c = leb lo c && leb c hi

-- The range that the second byte of a sequence may lie in, by the first byte.
second_low : ℕ → ℕ
second_low c = if c == 0xe0 then 0xa0 else if c == 0xf0 then 0x90 else 0x80

second_high : ℕ → ℕ
second_high c = if c == 0xed then 0x9f else if c == 0xf4 then 0x8f else 0xbf

continues : ℕ → Bool
continues c = between 0x80 0xbf c

-- A code point with the number of bytes that it takes.
bad : ℕ × ℕ
bad = (rune_error, 1)

decode_two : ℕ → Text → ℕ × ℕ
unfolding second_low second_high continues bad
decode_two a [] = bad
decode_two a (b ∷ _) = if continues b then ((a - 0xc0) * 64 + (b - 0x80), 2) else bad

decode_three : ℕ → Text → ℕ × ℕ
unfolding second_low second_high continues bad
decode_three a [] = bad
decode_three a (b ∷ []) = bad
decode_three a (b ∷ c ∷ _) =
    if between (second_low a) (second_high a) b && continues c
    then ((a - 0xe0) * 4096 + (b - 0x80) * 64 + (c - 0x80), 3)
    else bad

decode_four : ℕ → Text → ℕ × ℕ
unfolding second_low second_high continues bad
decode_four a [] = bad
decode_four a (b ∷ []) = bad
decode_four a (b ∷ c ∷ []) = bad
decode_four a (b ∷ c ∷ d ∷ _) =
    if between (second_low a) (second_high a) b && (continues c && continues d)
    then ((a - 0xf0) * 262144 + (b - 0x80) * 4096 + (c - 0x80) * 64 + (d - 0x80), 4)
    else bad

-- The first code point of a text that begins with the byte `a`.
pub decode : ℕ → Text → ℕ × ℕ
unfolding decode_two decode_three decode_four bad
decode a rest =
    if ltb a 0x80
    then (a, 1)
    else if between 0xc2 0xdf a
    then decode_two a rest
    else if between 0xe0 0xef a
    then decode_three a rest
    else if between 0xf0 0xf4 a
    then decode_four a rest
    else bad

-- The code points of a text, after `skip` bytes that belong to one already read.
runes_from : ℕ → Text → List ℕ
unfolding decode
runes_from skip [] = []
runes_from (suc skip) (a ∷ rest) = runes_from skip rest
runes_from zero (a ∷ rest) = let (r, width) = decode a rest in r ∷ runes_from (width - 1) rest

unfoldable pub runes : Text → List ℕ
unfolding runes_from
runes s = runes_from 0 s

-- A Unicode scalar value: a code point that is no surrogate.
abbrev pub is_scalar : ℕ → Bool
is_scalar r = ltb r 0xd800 || between 0xe000 0x10ffff r

-- The bytes of a code point.
pub encode : ℕ → Text
encode r =
    if ltb r 0x80
    then r ∷ []
    else if ltb r 0x800
    then (0xc0 + r / 64) ∷ (0x80 + r % 64) ∷ []
    else if ltb r 0x10000
    then (0xe0 + r / 4096) ∷ (0x80 + r / 64 % 64) ∷ (0x80 + r % 64) ∷ []
    else (0xf0 + r / 262144) ∷ (0x80 + r / 4096 % 64) ∷ (0x80 + r / 64 % 64) ∷ (0x80 + r % 64) ∷ []

pub encode_all : List ℕ → Text
encode_all [] = []
encode_all (r ∷ rs) = encode r ++ encode_all rs
