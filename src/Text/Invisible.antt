-- ===== src/Text/Invisible.antt =====
-- internal/invisible/invisible.go: the characters that a reader cannot see.
use sucopay.Prelude.{ℕ, ◌≡◌, Bool, true, List, ◌||◌, any, all, ltb, ◌==◌}
use sucopay.Text.{Text}
use sucopay.Text.Utf8.{runes, between, is_scalar, encode_all}
use sucopay.Text.Utf8.RoundTrip.{runes-encode_all}

-- `is`
unfoldable pub is : ℕ → Bool
is r =
    (ltb r 0x20 || r == 0x7f)
    || (between 0x80 0x9f r
        || (r == 0xa0
            || (between 0x200b 0x200f r
                || ((r == 0x2028 || r == 0x2029)
                    || (between 0x202a 0x202e r
                        || (r == 0x2060 || (between 0x2066 0x2069 r || r == 0xfeff)))))))

-- `Has`
unfoldable pub has : Text → Bool
unfolding runes is
has s = any is (runes s)

-- `Has` looks at characters and not at bytes: of a text in UTF-8 it says whether one of the
-- characters written there is on the list, whatever bytes the others are made of.
pub has-encode_all : (rs : List ℕ) → all is_scalar rs ≡ true → has (encode_all rs) ≡ any is rs
unfolding has
has-encode_all rs h = rw (runes-encode_all rs h)
