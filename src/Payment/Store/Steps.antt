-- ===== src/Payment/Store/Steps.antt =====
-- The transactions of the service over the database, and what refunds hold of a payment.
use sucopay.Prelude.{ℕ, ◌≤◌, ◌≡◌, ◌⊎◌, true, false, ◌&&◌, List, [], some, ok, any}
use sucopay.Text.{Text, text_eq}
use sucopay.Payment.Money
use sucopay.Payment.Money.{pos}
use sucopay.Payment.Status.{succeeded}
use sucopay.Payment.Aggregate.{Payment}
use sucopay.Payment.Lifecycle.Moves.{Move, apply}
use sucopay.Payment.Refund.{Refund}
use sucopay.Payment.Refund.Laws.{RefundMove, apply_move}
use sucopay.Payment.Store.{Database, PaymentRow, RefundRow, Revision, Event}
use sucopay.Payment.Store.Payments.{payment_row, find, create, save}
use sucopay.Payment.Store.Refunds.{held_by, create_refund, find_refund, save_refund}
use sucopay.Payment.Store.Held.{are_distinct}

-- One transaction of the service. What a move saves is what it read, moved: a save is refused when
-- the version of the row is no longer the one that was read. A refund's identifier is one that no
-- refund of the account has.
infix 4 ◌⟹◌
pub data ◌⟹◌ : Database → Database → Type 0 where
  payment_created :
      {d d' : Database} (account : Text) (p : Payment) → create account p d ≡ ok d' → d ⟹ d'
  payment_moved :
      {d d' : Database} (clock : ℕ) (account id : Text) (p q : Payment) (at : Revision) (m : Move)
      (e : Event)
      → find account id d ≡ ok (p, at)
      → apply m p ≡ ok q
      → save clock account (some q) at e d ≡ ok d'
      → d ⟹ d'
  refund_created :
      {d d' : Database} (account : Text) (r : Refund)
      → any (λ row. text_eq row.account account && text_eq row.refund.id r.id) d.refunds ≡ false
      → create_refund account (some r) d ≡ ok d'
      → d ⟹ d'
  refund_moved :
      {d d' : Database} (clock : ℕ) (account payment id : Text) (r q : Refund) (at : Revision)
      (m : RefundMove) (e : Event)
      → find_refund account payment id d ≡ ok (r, at)
      → apply_move m r ≡ ok q
      → save_refund clock account (some q) at e d ≡ ok d'
      → d ⟹ d'

-- Any number of them.
infix 4 ◌⟹*◌
pub data ◌⟹*◌ : Database → Database → Type 0 where
  done : {d : Database} → d ⟹* d
  then_ : {d e f : Database} → d ⟹* e → e ⟹ f → d ⟹* f

abbrev pub empty : Database
empty = record { payments = []; attempts = []; refunds = []; outbox = []; observations = [] }

-- The refunds of a payment hold nothing, or the payment succeeded and they hold at most what arrived.
abbrev pub Covers : List PaymentRow → List RefundRow → Text → Text → Type 0
Covers ps rs a i =
    (held_by a i rs ≡ 0)
    ⊎ ((row : PaymentRow) × (payment_row a i ps ≡ some row)
        × (row.stored.status ≡ succeeded)
        × (held_by a i rs ≤ Money.amount_of row.stored.received))

pub record IsCovered (d : Database) : Type 0 where
  pub distinct : are_distinct d.refunds ≡ true
  pub covers : (a i : Text) → Covers d.payments d.refunds a i
