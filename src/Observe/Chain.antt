-- ===== src/Observe/Chain.antt =====
-- internal/adapter/chain/chain.go: what an observer asks of a chain, and what it can be told. A chain
-- is the answers that it gives in one round.
use sucopay.Prelude.{ℕ, List, Result}
use sucopay.Text.{Text}

-- `Block`
pub record Block : Type 0 where
  pub height : ℕ
  pub hash : Text
  pub parent : Text
  pub time : ℕ

-- `Head`
pub record Head : Type 0 where
  pub latest : Block
  pub final : Block

-- `Consumed`
pub record Consumed : Type 0 where
  pub key : Text
  pub authorizer : Text
  pub tx : Text

-- `Scan`
pub record Scan : Type 0 where
  pub consumed : List Consumed
  pub changed : List Text

-- `Transfer`
pub record ChainTransfer : Type 0 where
  pub scheme : Text
  pub asset : Text
  pub key : Text
  pub authorizer : Text
  pub from : Text
  pub to : Text
  pub value : Text
  pub tx : Text
  pub position : ℕ
  pub block : Block

-- The errors of a chain: `RateLimited` with the time that it asks to wait, `ErrTooWide`, `ErrNoFinal`,
-- and any other.
pub data ChainError : Type 0 where
  rate_limited : ℕ → ChainError
  too_wide no_final other : ChainError

-- `Chain`
pub record Chain : Type 0 where
  pub identity : Result ChainError Text
  pub head : Result ChainError Head
  pub block : ℕ → Result ChainError Block
  pub keys : ℕ → ℕ → List Text → Result ChainError Scan
  pub receipt : Text → Result ChainError (List ChainTransfer)
  pub implementation : Text → Result ChainError Text
