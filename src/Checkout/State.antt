-- ===== src/Checkout/State.antt =====
-- internal/checkout/state.go: what the page shows in one answer.
use sucopay.Prelude.{
  ℕ, ◌+◌, ◌-◌, ◌*◌, Bool, not, ◌||◌, Option, none, some, ltb, ◌==◌, if◌then◌else◌, is_empty,
  is_some,
}
use sucopay.Text.{Text, text_eq, codes}
use sucopay.Payment.Units.{units}
use sucopay.Payment.Status.{Status, created, awaiting_payment, final, status_eq}
use sucopay.Payment.Aggregate.{Payment}
use sucopay.Payment.Attempt.{min_remaining, second}
use sucopay.Checkout.Typed.{TypedData}

-- `PageLife`
abbrev pub page_life : ℕ
page_life = 30 * 24 * 60 * 60 * second

-- The words for why nothing can be signed; `again` is given by a route alone.
pub data Reason : Type 0 where
  expired closing paid done not_ready reissued again : Reason

-- `Result`
pub record Seen : Type 0 where
  pub tx : Text
  pub block_height : ℕ
  pub block_time : ℕ
  pub value : Text
  pub confirming : Bool
  pub received_at : Option ℕ

-- `Asset`
pub record ShownAsset : Type 0 where
  pub symbol : Text
  pub decimals : ℕ
  pub network : Text
  pub chain_id : ℕ

-- `State`
pub record State : Type 0 where
  pub status : Status
  pub amount : Text
  pub asset : ShownAsset
  pub expires_at : ℕ
  pub merchant : Text
  pub return_url : Option Text
  pub attempt : Option TypedData
  pub result : Option Seen
  pub reason : Option Reason
  pub slower : Bool

-- `Facts`
pub record Facts : Type 0 where
  pub now : ℕ
  pub chain_id : ℕ
  pub merchant : Text
  pub network_word : Text
  pub watched : Bool
  pub matched : Option Seen
  pub reissued : Bool
  pub attempt : Option TypedData

-- `Reason`; the empty word is `none`
unfoldable pub reason : Payment → Facts → Option Reason
unfolding final
reason p f =
    if final p.status
    then some done
    else if is_some f.matched
    then some paid
    else if not (ltb f.now p.expires_at)
    then some expired
    else if ltb (p.expires_at - f.now) min_remaining
    then some closing
    else if not f.watched
    then some not_ready
    else if f.reissued
    then some reissued
    else none

-- `Build`
unfoldable pub build : Payment → Facts → State
unfolding status_eq reason
build p f = record {
  status = if status_eq p.status created then awaiting_payment else p.status;
  amount = units p.amount;
  asset = record {
    symbol = p.amount.asset.symbol;
    decimals = p.amount.asset.decimals;
    network = p.amount.asset.network;
    chain_id = f.chain_id;
  };
  expires_at = p.expires_at;
  merchant = f.merchant;
  return_url = if not (is_empty p.return_url) then some p.return_url else none;
  attempt = f.attempt;
  result = f.matched;
  reason = reason p f;
  slower = not (text_eq f.network_word (codes "observing"));
}

-- `Readable`
unfoldable pub readable : ℕ → ℕ → Bool
readable closed_at now = closed_at == 0 || ltb now (closed_at + page_life)
