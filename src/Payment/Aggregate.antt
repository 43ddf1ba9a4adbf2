-- ===== src/Payment/Aggregate.antt =====
-- internal/payment/payment.go: what a payment is made of, and the two ways to make one, `New` for a
-- request and `Restore` for a row. A `time.Time` is the nanoseconds since the zero time.
pub mod Opening
pub mod Acceptance
use sucopay.Prelude.{
  ℕ, ◌-◌, ◌%◌, Bool, not, ◌&&◌, List, [], ◌∷◌, ◌++◌, ltb, ◌==◌, if◌then◌else◌, length, is_empty,
  Result, ok, err, ◌>>=◌, ◌>>◌, map_err, Option, none, some,
}
use sucopay.Text.{Text, codes}
use sucopay.Text.Invisible.{has}
use sucopay.Text.Hex.{HexError, hex_of_length, encode_hex}
use sucopay.Payment.Money
use sucopay.Payment.Money.{Money, zero_money, cmp, Sign}
use sucopay.Payment.Status
use sucopay.Payment.Status.{Status, created, succeeded, status_eq}
use sucopay.Payment.Metadata.{Metadata, metadata_problems}
use sucopay.Payment.Problem.{
  AddressError, Message, Problem, Problems, one, not_after, still_created, nothing_arrived,
  already_arrived, short_of, not_status,
}

-- `MaxAddressBytes`
abbrev pub max_address_bytes : ℕ
max_address_bytes = 128

-- `ParseID`
unfoldable pub parse_id : Text → Result HexError Text
unfolding hex_of_length
parse_id s = do hex_of_length s 32; ok s

-- `ParseAddress`
unfoldable pub parse_address : Text → Result AddressError Text
parse_address s =
    if is_empty s
    then err AddressError.none_given
    else if ltb max_address_bytes (length s)
    then err (AddressError.too_long (length s))
    else if has s
    then err AddressError.invisible
    else ok s

-- `Idempotency` and `Checkout`
pub record Idempotency : Type 0 where
  pub key : Text
  pub body_hash : Text

pub record Checkout : Type 0 where
  pub hash : Text
  pub key_id : Text

-- `Payment`
pub record Payment : Type 0 where
  pub id : Text
  pub amount : Money
  pub received : Money
  pub destination : Text
  pub status : Status
  pub metadata : Metadata
  pub created_at : ℕ
  pub expires_at : ℕ
  pub return_url : Text
  pub checkout : Checkout
  pub idempotency : Idempotency
  pub closed_at : ℕ

-- `Request`
pub record Request : Type 0 where
  pub amount : Money
  pub destination : Text
  pub metadata : Metadata
  pub expires_at : ℕ
  pub return_url : Text
  pub checkout : Checkout
  pub idempotency : Idempotency

-- `Stored`
pub record Stored : Type 0 where
  pub id : Text
  pub amount : Money
  pub received : Money
  pub destination : Text
  pub metadata : Metadata
  pub status : Status
  pub created_at : ℕ
  pub expires_at : ℕ
  pub return_url : Text
  pub checkout : Checkout
  pub idempotency : Idempotency
  pub closed_at : ℕ

-- `Truncate(time.Microsecond)`, which rounds down to whole microseconds since the zero time.
unfoldable pub to_microsecond : ℕ → ℕ
to_microsecond t = t - t % 1000

problems_of_id : Result HexError Text → Problems
problems_of_id (ok s) = []
problems_of_id (err e) = one (codes "id") (Message.hex e)

unfoldable pub problems_of_address : Result AddressError Text → Problems
problems_of_address (ok s) = []
problems_of_address (err e) = one (codes "destination") (Message.address e)

amount_problems : Money → Problems
unfolding Money.is_set Money.amount_of
amount_problems m =
    if not (Money.is_set m)
    then one (codes "amount") Message.none_given
    else if Money.amount_of m == 0
    then one (codes "amount") Message.zero
    else []

deadline_problems : ℕ → ℕ → Problems
deadline_problems expires_at deadline_after =
    if expires_at == 0
    then one (codes "expires_at") Message.none_given
    else if not (ltb deadline_after expires_at)
    then one (codes "expires_at") (not_after expires_at deadline_after)
    else []

-- What `build` finds wrong, in its order.
pub request_problems : Text → Request → ℕ → Problems
unfolding problems_of_id problems_of_address amount_problems deadline_problems
request_problems id r deadline_after =
    problems_of_id (parse_id id)
    ++ (amount_problems r.amount
        ++ (problems_of_address (parse_address r.destination)
            ++ (deadline_problems r.expires_at deadline_after ++ metadata_problems r.metadata)))

-- `build`
unfoldable pub build : Text → Request → Status → ℕ → ℕ → Result Problems Payment
unfolding request_problems to_microsecond
build id r status created_at deadline_after =
    let problems = request_problems id r deadline_after in
    if not (is_empty problems)
    then err problems
    else ok (record {
      id = id;
      amount = r.amount;
      received = zero_money;
      destination = r.destination;
      status = status;
      metadata = r.metadata;
      created_at = to_microsecond created_at;
      expires_at = to_microsecond r.expires_at;
      return_url = r.return_url;
      checkout = r.checkout;
      idempotency = r.idempotency;
      closed_at = 0;
    })

-- `NewID`: the random source answers sixteen bytes or fails.
unfoldable pub new_id : Option (List ℕ) → Option Text
new_id none = none
new_id (some bytes) = some (encode_hex bytes)

-- `New`; a failure of the random source is `none`
unfoldable pub new : Option (List ℕ) → Request → ℕ → Option (Result Problems Payment)
unfolding new_id build
new random r now = elim (new_id random) [
  | none ↦ none
  | some id ↦ some (build id r created now now)
]

comparison : Result Money.MoneyError Sign → Result Problems Sign
comparison (ok s) = ok s
comparison (err e) = err (one (codes "received") (Message.money e))

-- `record`
unfoldable pub record_received : Payment → Money → Result Problems Payment
unfolding comparison Money.is_set
record_received p m =
    if not (Money.is_set m)
    then err (one (codes "received") Message.none_given)
    else if Money.is_set p.received
    then err (one (codes "received") (already_arrived p.received))
    else do comparison (cmp m p.amount); ok (record p { received = m })

short : Payment → Sign → Result Problems (Unit {0})
short p Sign.less = err (one (codes "received") (short_of p.received p.amount))
short p _ = ok tt

-- `covered`
unfoldable pub covered : Payment → Result Problems (Unit {0})
unfolding comparison short Money.is_set
covered p =
    if not (Money.is_set p.received)
    then err (one (codes "received") nothing_arrived)
    else do sign ← comparison (cmp p.received p.amount); short p sign

-- Nothing can arrive for a payment nobody could pay yet.
refuse_created : Stored → Payment → Result Problems Payment
unfolding status_eq
refuse_created s p =
    if status_eq s.status created
    then err (one (codes "received") (still_created s.received s.status))
    else ok p

-- The `if s.Received.IsSet()` of `Restore`.
restore_received : Stored → Payment → Result Problems Payment
unfolding record_received refuse_created Money.is_set
restore_received s p =
    if Money.is_set s.received then record_received p s.received >>= refuse_created s else ok p

-- The `if s.Status == Succeeded` of `Restore`.
restore_covered : Stored → Payment → Result Problems Payment
unfolding covered status_eq
restore_covered s p = if status_eq s.status succeeded then covered p >> ok p else ok p

abbrev pub request_of : Stored → Request
request_of s = record {
  amount = s.amount;
  destination = s.destination;
  metadata = s.metadata;
  expires_at = s.expires_at;
  return_url = s.return_url;
  checkout = s.checkout;
  idempotency = s.idempotency;
}

-- `Restore`
unfoldable pub restore : Stored → Result Problems Payment
unfolding restore_received restore_covered Status.valid
restore s =
    if not (Status.valid s.status) then err (one (codes "status") (not_status s.status)) else do
      p ← build s.id (request_of s) s.status s.created_at s.created_at
      p' ← restore_received s (record p { closed_at = s.closed_at })
      restore_covered s p'
