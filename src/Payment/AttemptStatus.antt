-- ===== src/Payment/AttemptStatus.antt =====
-- The states of an attempt (internal/payment/attempt.go).
use sucopay.Prelude.{Bool, true, false}
use sucopay.Text.{Text}

-- `AttemptStatus`, a string: the three that the package defines, and any other text.
pub data AttemptStatus : Type 0 where
  issued confirming superseded : AttemptStatus
  other : Text → AttemptStatus

-- `AttemptStatus.Valid`
unfoldable pub valid : AttemptStatus → Bool
valid (other s) = false
valid _ = true

abbrev pub is_issued : AttemptStatus → Bool
is_issued issued = true
is_issued _ = false

abbrev pub is_confirming : AttemptStatus → Bool
is_confirming confirming = true
is_confirming _ = false
