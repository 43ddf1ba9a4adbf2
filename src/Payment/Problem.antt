-- ===== src/Payment/Problem.antt =====
-- What is wrong with a request (`Problem`, `Problems` and `errTransition` of internal/payment). A
-- message is a constructor for each sentence of the source, with the values that are put into it.
use sucopay.Prelude.{ℕ, List, [], ◌∷◌, if◌then◌else◌}
use sucopay.Text.{Text, codes}
use sucopay.Text.Hex.{HexError}
use sucopay.Payment.Money.{Money, MoneyError}
use sucopay.Payment.AttemptStatus.{AttemptStatus}
use sucopay.Payment.RefundStatus.{RefundStatus}
use sucopay.Payment.Status.{Status, final}

-- The errors of `ParseAddress`.
pub data AddressError : Type 0 where
  none_given : AddressError
  too_long : ℕ → AddressError
  invisible : AddressError

pub data Message : Type 0 where
  not_status : Status → Message
  status_is : Status → Message
  is_final : Status → Message
  attempt_is : AttemptStatus → Message
  not_refund_status : RefundStatus → Message
  does_not_become : RefundStatus → RefundStatus → Message
  cannot_go : Status → Status → Message
  cannot_arrive : Status → Message
  cannot_be_taken_back : Status → Message
  still_created : Money → Status → Message
  nothing_arrived : Message
  already_arrived : Money → Message
  short_of : Money → Money → Message
  money : MoneyError → Message
  hex : HexError → Message
  address : AddressError → Message
  none_given : Message
  zero : Message
  not_after : ℕ → ℕ → Message
  closes_in : ℕ → ℕ → Message
  entries : ℕ → Message
  key_empty : Message
  key_long : ℕ → Message
  key_invisible : Message
  value_long : ℕ → Message
  value_invisible : Message
  not_payments_asset : Text → Message
  not_succeeded : Status → Message
  nothing_to_refund : Message
  more_than_left : Money → Money → Message
  after_latest : ℕ → ℕ → Message
  no_payment : Message

-- `Problem`
pub record Problem : Type 0 where
  pub field : Text
  pub message : Message

-- `Problems`
abbrev pub Problems : Type 0
Problems = List Problem

-- A list of one problem.
abbrev pub one : Text → Message → Problems
one field message = record { field = field; message = message } ∷ []

-- `errTransition`
unfoldable pub err_transition : Status → Status → Problems
unfolding final
err_transition from to =
    if final from
    then one (codes "status") (Message.is_final from)
    else one (codes "status") (Message.cannot_go from to)
