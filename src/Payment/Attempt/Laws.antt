-- ===== src/Payment/Attempt/Laws.antt =====
-- The invariant of an attempt, its row, and the deadline that it is given.
use sucopay.Prelude.{
  ℕ, ◌+◌, ◌≤◌, ◌<◌, ◌≡◌, ◌⊎◌, true, false, List, [], Option, some, Result, ok, arith, is_empty, all,
  length, ◌*◌,
}
use mathlib.Core.Path.{subst}
use sucopay.Text.{Text, text_eq, text_eq_refl}
use sucopay.Text.Hex.{hex_of_length, encode_hex}
use sucopay.Text.Hex.Encode.{is_byte, hex_of_length-encode_hex}
use sucopay.Payment.Status.{awaiting_payment}
use sucopay.Payment.Aggregate.{Payment, parse_id, parse_address}
use sucopay.Payment.AttemptStatus.{issued, confirming, valid}
use sucopay.Payment.Attempt.{
  Attempt, AttemptError, new_attempt, restore_attempt, confirm, unconfirm, supersede, eip3009,
  second, min_remaining, to_second,
}

-- Who signed and where the attempt has got to go together.
pub record IsSound (a : Attempt) : Type 0 where
  pub id_shaped : hex_of_length a.id 32 ≡ ok tt
  pub payment_shaped : parse_id a.payment_id ≡ ok a.payment_id
  pub scheme_known : text_eq a.scheme eip3009 ≡ true
  pub network_given : is_empty a.network ≡ false
  pub key_shaped : hex_of_length a.key 64 ≡ ok tt
  pub status_valid : valid a.status ≡ true
  pub issued_unsigned : a.status ≡ issued → a.authorizer ≡ []
  pub confirming_signed : a.status ≡ confirming → is_empty a.authorizer ≡ false
  pub signer_shaped : (a.authorizer ≡ []) ⊎ (parse_address a.authorizer ≡ ok a.authorizer)

pub data AttemptMove : Type 0 where
  confirmed : Text → AttemptMove
  unconfirmed : AttemptMove
  replaced : AttemptMove

unfoldable pub apply_move : AttemptMove → Attempt → Result AttemptError Attempt
unfolding confirm unconfirm supersede
apply_move (confirmed by) a = confirm by a
apply_move unconfirmed a = unconfirm a
apply_move replaced a = supersede a

apply_move-IsSound :
    (m : AttemptMove) (a b : Attempt) → IsSound a → apply_move m a ≡ ok b → IsSound b
unfolding apply_move valid parse_address
apply_move-IsSound (confirmed by) a b s h = ground arith
apply_move-IsSound unconfirmed a b s h = ground arith
apply_move-IsSound replaced a b s h = ground arith

-- A sound attempt comes back from its row as it was.
pub restore_attempt-IsSound : (a : Attempt) → IsSound a → restore_attempt a ≡ ok a
unfolding restore_attempt
restore_attempt-IsSound a s = ground arith

-- A transfer that was seen and is gone again leaves no trace: taking an attempt back to issued after
-- it was confirmed gives the attempt that was issued.
pub unconfirm-confirm :
    (a b : Attempt) (by : Text) → IsSound a → confirm by a ≡ ok b → unconfirm b ≡ ok a
unfolding confirm unconfirm
unconfirm-confirm a b by s h = ground arith

-- What a new attempt promises the payer against the payment that it is made for: it is
-- issued, the moment that its authorisation dies is a whole second, does not lie after the payment's
-- deadline and less than a second before it, and at least two minutes are left until that deadline.
pub new_attempt_terms :
    (p : Payment) (now : ℕ) (random_id random_key : Option (List ℕ)) (a : Attempt)
    → new_attempt (some p) now random_id random_key ≡ ok a
    → (p.status ≡ awaiting_payment)
      × (a.status ≡ issued)
      × (a.payment_id ≡ p.id)
      × (a.network ≡ p.amount.asset.network)
      × (to_second a.valid_before ≡ a.valid_before)
      × (a.valid_before ≤ p.expires_at)
      × (p.expires_at < a.valid_before + second)
      × (now + min_remaining ≤ p.expires_at)
unfolding new_attempt to_second
new_attempt_terms p now random_id random_key a h = ground arith

-- Hexadecimal of as many bytes as the two identifiers are made of: sixteen and thirty-two.
abbrev pub IsRandom : ℕ → List ℕ → Type 0
IsRandom n bs = (all is_byte bs ≡ true) × (length bs ≡ n)

minted_shape : (n : ℕ) (bs : List ℕ) → IsRandom n bs → hex_of_length (encode_hex bs) (2 * n) ≡ ok tt
minted_shape n bs h =
    subst (λ k. hex_of_length (encode_hex bs) (2 * k) ≡ ok tt) h.1 (hex_of_length-encode_hex bs h.0)

new_attempt-IsSound :
    (p : Payment) (now : ℕ) (random_id random_key : List ℕ) (a : Attempt)
    → IsRandom 16 random_id
    → IsRandom 32 random_key
    → parse_id p.id ≡ ok p.id
    → is_empty p.amount.asset.network ≡ false
    → new_attempt (some p) now (some random_id) (some random_key) ≡ ok a
    → IsSound a
unfolding new_attempt valid
new_attempt-IsSound p now random_id random_key a ri rk id net h =
    ground
      (arith, minted_shape 16 random_id ri, minted_shape 32 random_key rk, text_eq_refl eip3009)

-- A new attempt at a payment that has an identifier of the right shape and a network is one that
-- `RestoreAttempt` takes as it is, when the random source answers the bytes that it was asked for.
pub restore_attempt-new :
    (p : Payment) (now : ℕ) (random_id random_key : List ℕ) (a : Attempt)
    → IsRandom 16 random_id
    → IsRandom 32 random_key
    → parse_id p.id ≡ ok p.id
    → is_empty p.amount.asset.network ≡ false
    → new_attempt (some p) now (some random_id) (some random_key) ≡ ok a
    → restore_attempt a ≡ ok a
restore_attempt-new p now random_id random_key a ri rk id net h =
    restore_attempt-IsSound a (new_attempt-IsSound p now random_id random_key a ri rk id net h)
