-- ===== src/Payment/Store/Ceiling.antt =====
-- What refunds hold and what arrived, over any steps.
use sucopay.Prelude.{refl, inl}
use sucopay.Text.{Text}
use sucopay.Payment.Store.{Database}
use sucopay.Payment.Store.Refunds.{held_by}
use sucopay.Payment.Store.Held.{are_distinct}
use sucopay.Payment.Store.Steps.{
  ◌⟹◌, payment_created, payment_moved, refund_created, refund_moved, ◌⟹*◌, done, then_, empty,
  Covers, IsCovered,
}
use sucopay.Payment.Store.PaymentSteps.{payment_created-IsCovered, payment_moved-IsCovered}
use sucopay.Payment.Store.RefundSteps.{refund_created-IsCovered, refund_moved-IsCovered}

step-IsCovered : {d d' : Database} → d ⟹ d' → IsCovered d → IsCovered d'
step-IsCovered (payment_created account p h) c = payment_created-IsCovered account p _ _ h c
step-IsCovered (payment_moved clock account id p q at m e f moved saved) c =
    payment_moved-IsCovered clock account id p q at m e _ _ f moved saved c
step-IsCovered (refund_created account r new h) c = refund_created-IsCovered account r _ _ new h c
step-IsCovered (refund_moved clock account payment id r q at m e f moved saved) c =
    refund_moved-IsCovered clock account payment id r q at m e _ _ f moved saved c

empty-IsCovered : IsCovered empty
unfolding are_distinct held_by
empty-IsCovered = record { distinct = refl; covers = λ a i. inl refl }

steps-IsCovered : {d d' : Database} → d ⟹* d' → IsCovered d → IsCovered d'
steps-IsCovered done c = c
steps-IsCovered (then_ before last) c = step-IsCovered last (steps-IsCovered before c)

-- Whatever payments and refunds are opened and moved, in any order and any number of times, from an
-- empty database, where a move saves what it read and a refund is opened under an identifier that no
-- refund of its account has: the refunds of a payment that are not expired hold nothing, or the payment
-- has succeeded and they hold together at most what arrived for it.
pub refund_ceiling : {d : Database} → empty ⟹* d → (a i : Text) → Covers d.payments d.refunds a i
refund_ceiling steps a i = (steps-IsCovered steps empty-IsCovered).covers a i
