-- ===== src/Payment/Lifecycle.antt =====
-- The moves of internal/payment/payment.go. A method of `*Payment` that returns an error has changed
-- nothing, so a method is a function to the new payment or the error.
pub mod Moves
pub mod Diagram
pub mod Soundness
pub mod Storage
pub mod Deadline
use sucopay.Prelude.{
  ℕ, Bool, not, ◌&&◌, ◌||◌, List, [], ◌∷◌, ltb, if◌then◌else◌, Result, ok, err, ◌>>=◌, ◌>>◌,
}
use sucopay.Text.{codes}
use sucopay.Payment.Money
use sucopay.Payment.Money.{Money, zero_money}
use sucopay.Payment.Status.{
  Status, awaiting_payment, awaiting_finality, succeeded, failed, expired, status_eq, can_become,
}
use sucopay.Payment.Problem.{
  Problems, one, err_transition, cannot_arrive, cannot_be_taken_back, nothing_arrived, not_after,
}
use sucopay.Payment.Aggregate.{Payment, record_received, covered}

-- `moveTo`
unfoldable pub move_to : Status → Payment → Result Problems Payment
unfolding can_become err_transition
move_to want p =
    if not (can_become p.status want)
    then err (err_transition p.status want)
    else ok (record p { status = want })

-- `Await`
unfoldable pub await : Payment → Result Problems Payment
unfolding move_to
await p = move_to awaiting_payment p

-- `CanReceive`
unfoldable pub can_receive : Payment → Bool
unfolding status_eq
can_receive p = status_eq p.status awaiting_payment || status_eq p.status awaiting_finality

-- `Receive`
unfoldable pub receive : Money → Payment → Result Problems Payment
unfolding can_receive record_received
receive m p =
    if not (can_receive p)
    then err (one (codes "received") (cannot_arrive p.status))
    else record_received p m

-- `Unreceive`
unfoldable pub unreceive : Payment → Result Problems Payment
unfolding can_receive Money.is_set
unreceive p =
    if not (can_receive p)
    then err (one (codes "received") (cannot_be_taken_back p.status))
    else if not (Money.is_set p.received)
    then err (one (codes "received") nothing_arrived)
    else ok (record p { received = zero_money })

-- `Succeed`
unfoldable pub succeed : Payment → Result Problems Payment
unfolding can_become err_transition covered move_to
succeed p =
    if not (can_become p.status succeeded)
    then err (err_transition p.status succeeded)
    else covered p >> move_to succeeded p

-- `AwaitFinality`
unfoldable pub await_finality : ℕ → Payment → Result Problems Payment
unfolding move_to
await_finality now p =
    if ltb now p.expires_at
    then err (one (codes "expires_at") (not_after p.expires_at now))
    else move_to awaiting_finality p

-- `Fail`
unfoldable pub fail : Payment → Result Problems Payment
unfolding move_to
fail p = move_to failed p

-- `Expire`
unfoldable pub expire : Payment → Result Problems Payment
unfolding move_to
expire p = move_to expired p
