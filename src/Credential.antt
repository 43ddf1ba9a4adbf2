-- ===== src/Credential.antt =====
-- internal/credential/credential.go: what a credential is, and keys as text. What crypto/rand fills is
-- an argument, a list of bytes; HMAC-SHA256 is a parameter of the store.
pub mod Store
pub mod Minted
use sucopay.Prelude.{
  ℕ, zero, suc, ◌+◌, ◌*◌, ◌%◌, ◌/◌, Bool, true, false, not, List, [], ◌∷◌, length, all, take, drop,
  replicate, ◌++◌, ◌&&◌, ◌||◌, if◌then◌else◌, ◌==◌, Result, ok, err,
}
use sucopay.Text.{Text, codes}
use sucopay.Text.Utf8.{between}
use sucopay.Text.Hex.{decodes, encode_hex}

-- `Scope`, `Access`, `InForce`
pub data Scope : Type 0 where
  scope_account scope_deployment : Scope

pub data Access : Type 0 where
  read_only read_write : Access
  other : Text → Access

pub data InForce : Type 0 where
  none_in_force read_only_in_force read_write_in_force : InForce

-- `Credential`
pub record Credential : Type 0 where
  pub id : Text
  pub scope : Scope
  pub account : Text
  pub access : Access
  pub key_id : Text
  pub last_used_at : ℕ

-- The errors of this package.
pub data CredentialError : Type 0 where
  not_found constraint not_hexadecimal not_an_id : CredentialError
  wrong_length : ℕ → ℕ → CredentialError

-- `keyBytes`
abbrev pub key_bytes : ℕ
key_bytes = 32

-- What a hexadecimal digit stands for.
unfoldable pub digit_value : ℕ → ℕ
digit_value c = if between b'0' b'9' c then c % 16 else c % 16 + 9

-- The bytes that hex.DecodeString reads.
unfoldable pub decode_hex : Text → List ℕ
unfolding digit_value
decode_hex [] = []
decode_hex (a ∷ []) = []
decode_hex (a ∷ b ∷ s) = (16 * digit_value a + digit_value b) ∷ decode_hex s

-- `ParseKey`
unfoldable pub parse_key : Text → Result CredentialError (List ℕ)
unfolding decodes decode_hex
parse_key s =
    if not (decodes s)
    then err not_hexadecimal
    else if not (length (decode_hex s) == key_bytes)
    then err (wrong_length key_bytes (length (decode_hex s)))
    else ok (decode_hex s)

-- `Key.Hex`
unfoldable pub hex : List ℕ → Text
unfolding encode_hex
hex k = encode_hex k

-- An element changed where it stands.
unfoldable pub change_at {ℓ} : {A : Type ℓ} → ℕ → (A → A) → List A → List A
change_at n f [] = []
change_at zero f (x ∷ xs) = f x ∷ xs
change_at (suc n) f (x ∷ xs) = x ∷ change_at n f xs

-- The bits of the version and of the variant: `b[6]&0x0f | 0x40` and `b[8]&0x3f | 0x80`
unfoldable pub stamped : List ℕ → List ℕ
unfolding change_at
stamped b = change_at 8 (λ x. x % 64 + 128) (change_at 6 (λ x. x % 16 + 64) b)

-- `%x-%x-%x-%x-%x`
unfoldable pub grouped : List ℕ → Text
unfolding encode_hex
grouped b =
    encode_hex (take 4 b)
    ++ (b'-'
        ∷ (encode_hex (take 2 (drop 4 b))
            ++ (b'-'
                ∷ (encode_hex (take 2 (drop 6 b))
                    ++ (b'-'
                        ∷ (encode_hex (take 2 (drop 8 b)) ++ (b'-' ∷ encode_hex (drop 10 b))))))))

-- `NewID`, of sixteen bytes
unfoldable pub new_id : List ℕ → Text
unfolding stamped grouped
new_id b = grouped (stamped b)

-- `[0-9a-f]`
unfoldable pub is_lower_digit : ℕ → Bool
is_lower_digit c = between b'0' b'9' c || between b'a' b'f' c

-- A text of groups of digits, each as long as said, with a dash between two.
unfoldable pub has_shape : ℕ → List ℕ → Text → Bool
unfolding is_lower_digit
has_shape zero [] [] = true
has_shape zero [] (c ∷ s) = false
has_shape zero (n ∷ ns) [] = false
has_shape zero (n ∷ ns) (c ∷ s) = c == b'-' && has_shape n ns s
has_shape (suc n) ns [] = false
has_shape (suc n) ns (c ∷ s) = is_lower_digit c && has_shape n ns s

-- `ParseID`, with the groups of `idShape`
unfoldable pub parse_id : Text → Result CredentialError Text
unfolding has_shape
parse_id s = if has_shape 8 (4 ∷ 4 ∷ 4 ∷ 12 ∷ []) s then ok s else err not_an_id
