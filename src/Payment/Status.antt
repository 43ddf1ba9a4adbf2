-- ===== src/Payment/Status.antt =====
-- internal/payment/status.go: where a payment has got to, and the moves that it may make.
use sucopay.Prelude.{
  Bool, true, false, ◌||◌, List, [], ◌∷◌, Option, none, some, any, if◌then◌else◌, is_some, get_or,
}
use sucopay.Text.{Text, text_eq}

-- `Status`, a string: the six that the package defines, and any other text that a row could hold.
pub data Status : Type 0 where
  created awaiting_payment awaiting_finality succeeded failed expired : Status
  other : Text → Status

-- `==` on statuses.
unfoldable pub status_eq : Status → Status → Bool
status_eq created created = true
status_eq awaiting_payment awaiting_payment = true
status_eq awaiting_finality awaiting_finality = true
status_eq succeeded succeeded = true
status_eq failed failed = true
status_eq expired expired = true
status_eq (other s) (other t) = text_eq s t
status_eq _ _ = false

-- The map `next`; a status that it does not hold is `none`.
unfoldable pub next : Status → Option (List Status)
next created = some (awaiting_payment ∷ [])
next awaiting_payment = some (succeeded ∷ failed ∷ awaiting_finality ∷ [])
next awaiting_finality = some (succeeded ∷ expired ∷ [])
next _ = none

-- `Status.Valid`
unfoldable pub valid : Status → Bool
unfolding next status_eq
valid s = is_some (next s) || (status_eq s succeeded || (status_eq s failed || status_eq s expired))

-- `Status.Final`
unfoldable pub final : Status → Bool
unfolding valid
final s = if is_some (next s) then false else valid s

-- `Status.CanBecome`
unfoldable pub can_become : Status → Status → Bool
unfolding next status_eq
can_become s want = any (λ t. status_eq t want) (get_or (next s) [])
