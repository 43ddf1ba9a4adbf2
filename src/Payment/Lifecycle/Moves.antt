-- ===== src/Payment/Lifecycle/Moves.antt =====
-- Sequences of calls of the methods that move a payment.
use sucopay.Prelude.{ℕ, List, [], ◌∷◌, Result, ok, err}
use sucopay.Payment.Money.{Money}
use sucopay.Payment.Problem.{Problems}
use sucopay.Payment.Aggregate.{Payment}
use sucopay.Payment.Lifecycle

-- A call of one of the methods.
pub data Move : Type 0 where
  await : Move
  receive : Money → Move
  unreceive : Move
  succeed : Move
  await_finality : ℕ → Move
  fail : Move
  expire : Move

unfoldable pub apply : Move → Payment → Result Problems Payment
unfolding Lifecycle.await Lifecycle.receive Lifecycle.unreceive Lifecycle.succeed
    Lifecycle.await_finality Lifecycle.fail Lifecycle.expire
apply await p = Lifecycle.await p
apply (receive m) p = Lifecycle.receive m p
apply unreceive p = Lifecycle.unreceive p
apply succeed p = Lifecycle.succeed p
apply (await_finality now) p = Lifecycle.await_finality now p
apply fail p = Lifecycle.fail p
apply expire p = Lifecycle.expire p

-- The payment that a call leaves behind, whether or not it returned an error.
abbrev pub left_by : Result Problems Payment → Payment → Payment
left_by (ok p') p = p'
left_by (err e) p = p

-- Any calls at all, one after another; an error ends only its own call.
unfoldable pub run : Payment → List Move → Payment
run p [] = p
run p (m ∷ ms) = run (left_by (apply m p) p) ms
