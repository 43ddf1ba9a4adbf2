-- ===== src/Payment/Lifecycle/Deadline.antt =====
-- When a payment may stop being payable.
use sucopay.Prelude.{ℕ, ◌≤◌, ◌≡◌, ◌⊎◌, List, [], ◌∷◌}
use sucopay.Payment.Status.{Status, created, awaiting_payment, awaiting_finality, expired}
use sucopay.Payment.Aggregate.{Payment}
use sucopay.Payment.Lifecycle.Moves.{Move}

-- One of the calls said that the time was `e` or later.
abbrev pub Passed : ℕ → List Move → Type 0
Passed e [] = ⊥
Passed e (Move.await_finality now ∷ ms) = (e ≤ now) ⊎ Passed e ms
Passed e (_ ∷ ms) = Passed e ms

-- Not yet closed to payment, and closed to it unpaid.
abbrev pub IsOpen : Status → Type 0
IsOpen s = (s ≡ created) ⊎ (s ≡ awaiting_payment)

abbrev pub IsClosedUnpaid : Status → Type 0
IsClosedUnpaid s = (s ≡ awaiting_finality) ⊎ (s ≡ expired)
