-- ===== src/Payment/RefundStatus.antt =====
-- The states of a refund (internal/payment/refund.go).
use sucopay.Prelude.{Bool, true, false, ◌||◌, List, [], ◌∷◌, Option, none, some, is_some}
use sucopay.Text.{Text, text_eq}

-- `RefundStatus`, a string: the four that the package defines, and any other text.
pub data RefundStatus : Type 0 where
  created awaiting_finality succeeded expired : RefundStatus
  other : Text → RefundStatus

-- `==` on statuses.
unfoldable pub refund_status_eq : RefundStatus → RefundStatus → Bool
refund_status_eq created created = true
refund_status_eq awaiting_finality awaiting_finality = true
refund_status_eq succeeded succeeded = true
refund_status_eq expired expired = true
refund_status_eq (other s) (other t) = text_eq s t
refund_status_eq _ _ = false

-- `refundMoves`
unfoldable pub refund_moves : RefundStatus → Option (List RefundStatus)
refund_moves created = some (succeeded ∷ awaiting_finality ∷ [])
refund_moves awaiting_finality = some (succeeded ∷ expired ∷ [])
refund_moves succeeded = some []
refund_moves expired = some []
refund_moves (other s) = none

-- `RefundStatus.Valid`
unfoldable pub valid : RefundStatus → Bool
unfolding refund_moves
valid s = is_some (refund_moves s)

-- `RefundStatus.Final`
unfoldable pub final : RefundStatus → Bool
unfolding refund_status_eq
final s = refund_status_eq s succeeded || refund_status_eq s expired
