-- ===== src/Payment/Attempt.antt =====
-- internal/payment/attempt.go: one payer's go at paying a payment.
pub mod Laws
use sucopay.Prelude.{
  ℕ, ◌+◌, ◌-◌, ◌*◌, ◌%◌, Bool, true, false, not, ◌&&◌, ◌||◌, List, [], ◌∷◌, Option, none, some, ltb,
  if◌then◌else◌, is_empty, Result, ok, err, ◌>>=◌, ◌>>◌, map_err,
}
use sucopay.Text.{Text, text_eq, codes}
use sucopay.Text.Hex.{HexError, hex_of_length, encode_hex}
use sucopay.Payment.Status.{Status, awaiting_payment, status_eq}
use sucopay.Payment.AttemptStatus.{
  AttemptStatus, issued, confirming, superseded, valid, is_issued, is_confirming,
}
use sucopay.Payment.Problem.{AddressError, Message, Problems, one, status_is, attempt_is, closes_in}
use sucopay.Payment.Aggregate.{Payment, parse_id, parse_address, to_microsecond}

-- `EIP3009`
abbrev pub eip3009 : Text
eip3009 = codes "eip3009"

-- `Attempt`
pub record Attempt : Type 0 where
  pub id : Text
  pub payment_id : Text
  pub scheme : Text
  pub network : Text
  pub key : Text
  pub authorizer : Text
  pub valid_before : ℕ
  pub status : AttemptStatus
  pub created_at : ℕ

-- The errors of this file that are no problems of a request.
pub data AttemptError : Type 0 where
  no_payment no_random no_network : AttemptError
  unsigned_confirming signed_issued : AttemptError
  problems : Problems → AttemptError
  bad_id bad_payment_id bad_key : HexError → AttemptError
  bad_scheme : Text → AttemptError
  bad_status : AttemptStatus → AttemptError
  bad_authorizer : AddressError → AttemptError

-- A second, and `MinRemaining`, in nanoseconds.
abbrev pub second : ℕ
second = 1_000_000_000

abbrev pub min_remaining : ℕ
min_remaining = 2 * 60 * second

-- `Truncate(time.Second)`
unfoldable pub to_second : ℕ → ℕ
to_second t = t - t % second

-- Hexadecimal of what the random source answers: `newAttemptID` and `newKey`.
mint : Option (List ℕ) → Result AttemptError Text
mint none = err no_random
mint (some bytes) = ok (encode_hex bytes)

new_attempt_of : Payment → ℕ → Option (List ℕ) → Option (List ℕ) → Result AttemptError Attempt
unfolding status_eq mint to_microsecond to_second
new_attempt_of p now random_id random_key =
    if not (status_eq p.status awaiting_payment)
    then err (problems (one (codes "status") (status_is p.status)))
    else if ltb p.expires_at (now + min_remaining)
    then err (problems (one (codes "expires_at") (closes_in p.expires_at now)))
    else do
      id ← mint random_id
      key ← mint random_key
      ok (record {
        id = id;
        payment_id = p.id;
        scheme = eip3009;
        network = p.amount.asset.network;
        key = key;
        authorizer = [];
        valid_before = to_second p.expires_at;
        status = issued;
        created_at = to_microsecond now;
      })

-- `NewAttempt`
unfoldable pub new_attempt :
    Option Payment → ℕ → Option (List ℕ) → Option (List ℕ) → Result AttemptError Attempt
unfolding new_attempt_of
new_attempt none now random_id random_key = err no_payment
new_attempt (some p) now random_id random_key = new_attempt_of p now random_id random_key

-- The checks of `RestoreAttempt` that end in an error of their own.
check : Bool → AttemptError → Result AttemptError (Unit {0})
check true e = ok tt
check false e = err e

authorizer_read : Text → Result AttemptError (Unit {0})
authorizer_read a = if is_empty a then ok tt else map_err bad_authorizer (parse_address a) >> ok tt

-- `RestoreAttempt`; a `StoredAttempt` has the fields of an attempt.
unfoldable pub restore_attempt : Attempt → Result AttemptError Attempt
unfolding check authorizer_read valid
restore_attempt s = do
  map_err bad_id (hex_of_length s.id 32)
  map_err bad_payment_id (parse_id s.payment_id)
  check (text_eq s.scheme eip3009) (bad_scheme s.scheme)
  check (not (is_empty s.network)) no_network
  map_err bad_key (hex_of_length s.key 64)
  check (valid s.status) (bad_status s.status)
  authorizer_read s.authorizer
  check (not (is_confirming s.status && is_empty s.authorizer)) unsigned_confirming
  check (not (is_issued s.status && not (is_empty s.authorizer))) signed_issued
  ok s

read_signer : Text → Result AddressError Text → Result AttemptError (Unit {0})
read_signer a (ok s) = ok tt
read_signer a (err e) = err (problems (one (codes "authorizer") (Message.address e)))

-- `Confirm`
unfoldable pub confirm : Text → Attempt → Result AttemptError Attempt
unfolding read_signer
confirm authorizer a =
    if not (is_issued a.status)
    then err (problems (one (codes "status") (attempt_is a.status)))
    else if is_empty authorizer
    then err (problems (one (codes "authorizer") Message.none_given))
    else read_signer authorizer (parse_address authorizer)
      >> ok (record a { authorizer = authorizer; status = confirming })

-- `Unconfirm`
unfoldable pub unconfirm : Attempt → Result AttemptError Attempt
unconfirm a =
    if not (is_confirming a.status)
    then err (problems (one (codes "status") (attempt_is a.status)))
    else ok (record a { authorizer = []; status = issued })

-- `Supersede`
unfoldable pub supersede : Attempt → Result AttemptError Attempt
supersede a =
    if not (is_issued a.status)
    then err (problems (one (codes "status") (attempt_is a.status)))
    else ok (record a { status = superseded })
