-- ===== src/Text/Utf8/RoundTrip.antt =====
-- Reading the code points of a text written as UTF-8 gives them back.
use sucopay.Prelude.{
  ℕ, ◌+◌, ◌/◌, ◌%◌, ◌<◌, ◌≤◌, ◌≡◌, refl, true, List, [], ◌∷◌, ◌++◌, arith, ltb, inl, inr,
  Bool-cases, ltb→lt, &&_parts, all,
}
use sucopay.Text.{Text}
use sucopay.Text.Utf8.{is_scalar, decode, runes_from, runes, encode, encode_all}

module _ (r : ℕ) (rest : Text) where
  decode-one : r < 0x80 → decode r rest ≡ (r, 1)
  unfolding decode
  decode-one h = ground arith

  decode-two : 0x80 ≤ r → r < 0x800 → decode (0xc0 + r / 64) ((0x80 + r % 64) ∷ rest) ≡ (r, 2)
  unfolding decode
  decode-two lo hi = ground arith

  decode-three :
      0x800 ≤ r
      → r < 0x10000
      → is_scalar r ≡ true
      → decode (0xe0 + r / 4096) ((0x80 + r / 64 % 64) ∷ (0x80 + r % 64) ∷ rest) ≡ (r, 3)
  unfolding decode
  decode-three lo hi s = ground arith

  decode-four :
      0x10000 ≤ r
      → is_scalar r ≡ true
      → decode
          (0xf0 + r / 262144)
          ((0x80 + r / 4096 % 64) ∷ (0x80 + r / 64 % 64) ∷ (0x80 + r % 64) ∷ rest)
        ≡ (r, 4)
  unfolding decode
  decode-four lo s = ground arith

-- Reading one encoded code point leaves the rest.
runes_from-encode :
    (r : ℕ) (rest : Text)
    → is_scalar r ≡ true
    → runes_from 0 (encode r ++ rest) ≡ r ∷ runes_from 0 rest
unfolding runes_from encode
runes_from-encode r rest s = elim (Bool-cases (ltb r 0x80)) [
  | inl one ↦ rw one (rw (decode-one r rest (ltb→lt _ _ one)))
  | inr more ↦ elim (Bool-cases (ltb r 0x800)) [
    | inl two ↦ rw (more, two) (rw (decode-two r rest (ground arith) (ltb→lt _ _ two)))
    | inr more' ↦ elim (Bool-cases (ltb r 0x10000)) [
      | inl three ↦
          rw (more, more', three) (rw (decode-three r rest (ground arith) (ltb→lt _ _ three) s))
      | inr four ↦ rw (more, more', four) (rw (decode-four r rest (ground arith) s))
    ]
  ]
]

encode_all-runes_from : (rs : List ℕ) → all is_scalar rs ≡ true → runes_from 0 (encode_all rs) ≡ rs
unfolding encode_all runes_from
encode_all-runes_from [] h = refl
encode_all-runes_from (r ∷ rs) h =
    let both = &&_parts (is_scalar r) (all is_scalar rs) h in
    rw (runes_from-encode r (encode_all rs) both.0) (rw (encode_all-runes_from rs both.1))

-- The code points of the UTF-8 of some scalar values are those values.
pub runes-encode_all : (rs : List ℕ) → all is_scalar rs ≡ true → runes (encode_all rs) ≡ rs
unfolding runes
runes-encode_all rs h = encode_all-runes_from rs h
