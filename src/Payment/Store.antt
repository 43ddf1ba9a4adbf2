-- ===== src/Payment/Store.antt =====
-- internal/payment/repository.go and internal/payment/postgres.go: the rows of a database, and events. A
-- statement is what PostgreSQL documents of it, over lists of rows, with the constraints that
-- internal/postgres/migrations declares. A transaction that is refused leaves the database alone.
pub mod Payments
pub mod Attempts
pub mod Lives
pub mod Refunds
pub mod Held
pub mod Rows
pub mod Steps
pub mod PaymentSteps
pub mod RefundSteps
pub mod Ceiling
pub mod Reads
pub mod Observations
pub mod Arrivals
pub mod Backed
pub mod Unconfirming
pub mod GivenUp
pub mod Rereading
pub mod Recorded
pub mod Sweeping
pub mod Vanishing
pub mod Quiet
pub mod Recording
pub mod Arriving
pub mod Queries
pub mod Transfers
pub mod Dues
use sucopay.Prelude.{
  ℕ, ◌+◌, Bool, true, false, not, ◌&&◌, ◌||◌, List, [], ◌∷◌, ◌++◌, Option, none, some, ltb, leb,
  ◌==◌, if◌then◌else◌, is_empty, is_some, any, length, Result, ok, err, ◌>>=◌, ◌>>◌, map_err,
}
use sucopay.Text.{Text, text_eq, codes}
use sucopay.Payment.Money
use sucopay.Payment.Money.{Money, MoneyError, zero_money}
use sucopay.Payment.Status.{Status, created, succeeded, status_eq, valid, final}
use sucopay.Payment.Problem.{Problems}
use sucopay.Payment.Aggregate.{Payment, Stored, Idempotency, Checkout, restore}
use sucopay.Payment.Attempt.{Attempt, AttemptError}
use sucopay.Payment.Refund.{Refund}
use sucopay.Payment.Evidence.{Reason, ScreenError}

-- `Revision`: the row that it belongs to, and the version that was read.
pub record Revision : Type 0 where
  pub id : Text
  pub at : ℕ

-- `Event`; `is_json` is what json.Valid says of the payload.
pub record Event : Type 0 where
  pub name : Text
  pub payload : Text
  pub is_json : Bool

-- A row of payments: an account, the columns, and the version.
pub record PaymentRow : Type 0 where
  pub account : Text
  pub stored : Stored
  pub version : ℕ

-- A row of refunds.
pub record RefundRow : Type 0 where
  pub account : Text
  pub refund : Refund
  pub version : ℕ

-- A row of attempts.
pub record AttemptRow : Type 0 where
  pub account : Text
  pub attempt : Attempt
  pub revision : ℕ

-- A row of outbox.
pub record OutboxRow : Type 0 where
  pub account : Text
  pub payment : Text
  pub event : Event

-- A row of observations. A timestamp that may be null is an option, and the value is the number that
-- the column holds.
pub record ObservationRow : Type 0 where
  pub account : Text
  pub payment : Text
  pub attempt : Option Text
  pub refund : Option Text
  pub network : Text
  pub key : Text
  pub tx : Text
  pub position : ℕ
  pub block_height : ℕ
  pub block_hash : Text
  pub block_time : ℕ
  pub asset : Text
  pub authorizer : Text
  pub sender : Text
  pub recipient : Text
  pub value : ℕ
  pub reason : Reason
  pub implementation : Text
  pub seen_at : ℕ
  pub final_at : Option ℕ
  pub disagreed_at : Option ℕ

pub record Database : Type 0 where
  pub payments : List PaymentRow
  pub attempts : List AttemptRow
  pub refunds : List RefundRow
  pub outbox : List OutboxRow
  pub observations : List ObservationRow

-- The errors of the repository, and a broken constraint by its name.
pub data StoreError : Type 0 where
  not_found stale idempotency_key_used key_taken : StoreError
  nothing_given half_event half_key event_not_json attempt_live : StoreError
  event_name_long event_long : ℕ → StoreError
  constraint : Text → StoreError
  not_a_number : Text → StoreError
  problems : Problems → StoreError
  bad_attempt : AttemptError → StoreError
  money : MoneyError → StoreError
  screened : ScreenError → StoreError
  too_high : ℕ → StoreError
  not_numeric : Text → StoreError

-- A test that ends in an error.
abbrev pub refuse_if : Bool → StoreError → Result StoreError (Unit {0})
refuse_if true e = err e
refuse_if false e = ok tt

-- `MaxEventBytes`, `MaxEventNameBytes`
abbrev pub max_event_bytes : ℕ
max_event_bytes = 65536

abbrev pub max_event_name_bytes : ℕ
max_event_name_bytes = 64

-- `checkEvent`
unfoldable pub check_event : Event → Result StoreError (Unit {0})
check_event e =
    if not (is_empty e.name) && is_empty e.payload || is_empty e.name && not (is_empty e.payload)
    then err half_event
    else if ltb max_event_name_bytes (length e.name)
    then err (event_name_long (length e.name))
    else if ltb max_event_bytes (length e.payload)
    then err (event_long (length e.payload))
    else if not (is_empty e.name) && not e.is_json
    then err event_not_json
    else ok tt

-- `writeOutbox`
unfoldable pub write_outbox : Text → Text → Event → Database → Result StoreError Database
unfolding check_event
write_outbox account id e d =
    check_event e
    >> ok (record d {
      outbox = d.outbox ++ record { account = account; payment = id; event = e } ∷ [];
    })
