-- ===== src/Payment/Refund.antt =====
-- internal/payment/refund.go: money going back to whoever paid a payment.
pub mod Laws
use sucopay.Prelude.{
  ℕ, ◌+◌, ◌*◌, Bool, true, false, not, ◌&&◌, ◌||◌, List, [], ◌∷◌, ◌++◌, Option, none, some, ◌==◌,
  if◌then◌else◌, is_empty, is_some, any, get_or, Result, ok, err, ◌>>=◌, ◌>>◌,
}
use sucopay.Text.{Text, text_eq, codes}
use sucopay.Text.Hex.{HexError, hex_of_length, encode_hex}
use sucopay.Payment.Asset
use sucopay.Payment.Money
use sucopay.Payment.Money.{Money}
use sucopay.Payment.Status.{Status, status_eq}
use sucopay.Payment.RefundStatus.{
  RefundStatus, created, awaiting_finality, succeeded, expired, refund_status_eq, refund_moves,
  valid, final,
}
use sucopay.Payment.Problem.{
  Message, Problems, one, status_is, not_payments_asset, no_payment, not_refund_status,
  does_not_become,
}
use sucopay.Payment.Aggregate.{
  Payment, Idempotency, parse_address, problems_of_address, to_microsecond,
}
use sucopay.Payment.Attempt.{eip3009, second}

-- `RefundLife`
abbrev pub refund_life : ℕ
refund_life = 30 * 60 * second

-- `PageToken`, and its `IsSet`
pub record PageToken : Type 0 where
  pub hash : Text
  pub key_id : Text

unfoldable pub token_is_set : PageToken → Bool
token_is_set t = not (is_empty t.hash) && not (is_empty t.key_id)

-- `RefundRequest`
pub record RefundRequest : Type 0 where
  pub amount : Money
  pub destination : Text
  pub token : PageToken
  pub idempotency : Idempotency

-- `Refund`; a `RefundStored` has the same fields.
pub record Refund : Type 0 where
  pub id : Text
  pub payment_id : Text
  pub amount : Money
  pub destination : Text
  pub scheme : Text
  pub network : Text
  pub key : Text
  pub expires_at : ℕ
  pub status : RefundStatus
  pub token : PageToken
  pub idempotency : Idempotency
  pub created_at : ℕ
  pub closed_at : ℕ

-- What `NewRefund` answers besides a refund.
pub data RefundError : Type 0 where
  problems : Problems → RefundError
  no_random : RefundError

id_problems : Text → Problems
id_problems id = elim (hex_of_length id 32) [ ok u ↦ [] | err e ↦ one (codes "id") (Message.hex e) ]

amount_problems : Payment → Money → Problems
unfolding Money.is_set Money.amount_of Asset.same
amount_problems p m =
    if not (Money.is_set m)
    then one (codes "amount") Message.none_given
    else if Money.amount_of m == 0
    then one (codes "amount") Message.zero
    else if not (Asset.same m.asset p.amount.asset)
    then one (codes "amount") (not_payments_asset m.asset.symbol)
    else []

status_refused : Payment → Problems
unfolding status_eq
status_refused p =
    if not (status_eq p.status Status.succeeded)
    then one (codes "status") (status_is p.status)
    else []

token_problems : PageToken → Problems
unfolding token_is_set
token_problems t = if not (token_is_set t) then one (codes "token") Message.none_given else []

-- What `NewRefund` finds wrong, in its order.
unfoldable pub refund_problems : Payment → Text → RefundRequest → Problems
unfolding id_problems amount_problems status_refused token_problems
refund_problems p id r =
    status_refused p
    ++ (amount_problems p r.amount
        ++ (problems_of_address (parse_address r.destination)
            ++ (token_problems r.token ++ id_problems id)))

unfoldable pub refund_of :
    Payment → Text → RefundRequest → ℕ → Option (List ℕ) → Result RefundError Refund
unfolding to_microsecond
refund_of p id r now none = err no_random
refund_of p id r now (some bytes) = ok (record {
  id = id;
  payment_id = p.id;
  amount = r.amount;
  destination = r.destination;
  scheme = eip3009;
  network = p.amount.asset.network;
  key = encode_hex bytes;
  expires_at = to_microsecond (now + refund_life);
  status = created;
  token = r.token;
  idempotency = r.idempotency;
  created_at = to_microsecond now;
  closed_at = 0;
})

-- `NewRefund`; the last argument is what the random source answers for the key
unfoldable pub new_refund :
    Option Payment → Text → RefundRequest → ℕ → Option (List ℕ) → Result RefundError Refund
new_refund none id r now random = err (problems (one [] no_payment))
new_refund (some p) id r now random =
    if not (is_empty (refund_problems p id r))
    then err (problems (refund_problems p id r))
    else refund_of p id r now random

status_problems : RefundStatus → Problems
unfolding valid
status_problems s = if not (valid s) then one (codes "status") (not_refund_status s) else []

stored_amount_problems : Money → Problems
unfolding Money.is_set Money.amount_of
stored_amount_problems m =
    if not (Money.is_set m) || Money.amount_of m == 0
    then one (codes "amount") Message.none_given
    else []

-- `RestoreRefund`
unfoldable pub restore_refund : Refund → Result Problems Refund
unfolding status_problems stored_amount_problems
restore_refund s =
    let problems =
      status_problems s.status
      ++ (stored_amount_problems s.amount ++ problems_of_address (parse_address s.destination)) in
    if not (is_empty problems) then err problems else ok s

-- `moveTo`
unfoldable pub move_to : RefundStatus → Refund → Result Problems Refund
unfolding refund_moves refund_status_eq
move_to s r =
    if not (any (λ t. refund_status_eq t s) (get_or (refund_moves r.status) []))
    then err (one (codes "status") (does_not_become r.status s))
    else ok (record r { status = s })

-- `Settle`, `AwaitFinality`, `Expire`
unfoldable pub settle : Refund → Result Problems Refund
unfolding move_to
settle r = move_to succeeded r

unfoldable pub await_finality : Refund → Result Problems Refund
unfolding move_to
await_finality r = move_to awaiting_finality r

unfoldable pub expire : Refund → Result Problems Refund
unfolding move_to
expire r = move_to expired r

-- `Holds`
unfoldable pub holds : Refund → Bool
unfolding refund_status_eq
holds r = not (refund_status_eq r.status expired)
