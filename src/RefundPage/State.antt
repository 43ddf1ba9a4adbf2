-- ===== src/RefundPage/State.antt =====
-- internal/refund/state.go: what the merchant's page shows in one answer.
use sucopay.Prelude.{ℕ, Bool, not, Option, none, some, ltb, if◌then◌else◌, is_some}
use sucopay.Text.{Text}
use sucopay.Payment.Units.{units}
use sucopay.Payment.RefundStatus.{RefundStatus, succeeded, final, refund_status_eq}
use sucopay.Payment.Aggregate.{Payment}
use sucopay.Payment.Refund.{Refund}
use sucopay.Payment.Evidence.{Transfer}
use sucopay.Checkout.State.{ShownAsset}
use sucopay.RefundPage.Typed.{TypedData, typed}

-- The words for why nothing can be signed.
pub data Reason : Type 0 where
  expired sent done : Reason

-- `Result`
pub record Seen : Type 0 where
  pub tx : Text
  pub block_height : ℕ
  pub block_time : ℕ
  pub value : Text
  pub settling : Bool

-- `State`
pub record State : Type 0 where
  pub status : RefundStatus
  pub payment : Text
  pub amount : Text
  pub asset : ShownAsset
  pub from : Text
  pub to : Text
  pub expires_at : ℕ
  pub authorization : Option TypedData
  pub result : Option Seen
  pub reason : Option Reason

-- `Facts`
pub record Facts : Type 0 where
  pub now : ℕ
  pub chain_id : ℕ
  pub name : Text
  pub version : Text
  pub seen : Option Transfer

-- `Reason`; the empty word is `none`
unfoldable pub reason : Refund → Facts → Option Reason
unfolding final
reason r f =
    if final r.status
    then some done
    else if is_some f.seen
    then some sent
    else if not (ltb f.now r.expires_at)
    then some expired
    else none

result_of : Refund → Option Transfer → Option Seen
unfolding refund_status_eq
result_of r none = none
result_of r (some t) = some (record {
  tx = t.tx;
  block_height = t.block_height;
  block_time = t.block_time;
  value = t.value;
  settling = not (refund_status_eq r.status succeeded);
})

-- What is signed, where no reason stands against it.
authorization_of : Payment → Refund → Facts → Option Reason → Option TypedData
unfolding typed
authorization_of p r f (some why) = none
authorization_of p r f none = some (typed p r f.name f.version f.chain_id)

-- `Build`
unfoldable pub build : Payment → Refund → Facts → State
unfolding reason result_of authorization_of
build p r f = record {
  status = r.status;
  payment = r.payment_id;
  amount = units r.amount;
  asset = record {
    symbol = p.amount.asset.symbol;
    decimals = p.amount.asset.decimals;
    network = p.amount.asset.network;
    chain_id = f.chain_id;
  };
  from = p.destination;
  to = r.destination;
  expires_at = r.expires_at;
  authorization = authorization_of p r f (reason r f);
  result = result_of r f.seen;
  reason = reason r f;
}
