-- ===== src/Payment/Store/Rows.antt =====
-- What a query by the primary key of payments answers, as rows are added and saved.
use sucopay.Prelude.{
  ℕ, ◌≡◌, false, ◌&&◌, List, [], ◌∷◌, ◌++◌, some, ok, arith, inl, inr, Option-cases,
}
use sucopay.Text.{Text, text_eq, text_eq_iff}
use sucopay.Payment.Money
use sucopay.Payment.Status.{final}
use sucopay.Payment.Aggregate.{Payment, Stored, restore, request_of}
use sucopay.Payment.Aggregate.Opening.{build-opened}
use sucopay.Payment.Lifecycle.Moves.{Move, apply}
use sucopay.Payment.Lifecycle.Storage.{restore-built_of}
use sucopay.Payment.Store.{PaymentRow}
use sucopay.Payment.Store.Payments.{is_payment, payment_row, update_payment}

pub payment_row-append :
    (a i : Text) (rows : List PaymentRow) (row x : PaymentRow)
    → payment_row a i rows ≡ some row
    → payment_row a i (rows ++ x ∷ []) ≡ some row
unfolding payment_row
payment_row-append a i [] row x h = absurd (ground arith)
payment_row-append a i (y ∷ rows) row x h = ground (arith, payment_row-append a i rows row x)

pub payment_row-key :
    (a i : Text) (rows : List PaymentRow) (row : PaymentRow)
    → payment_row a i rows ≡ some row
    → row.stored.id ≡ i
unfolding payment_row is_payment
payment_row-key a i [] row h = absurd (ground arith)
payment_row-key a i (y ∷ rows) row h =
    ground (arith, payment_row-key a i rows row, text_eq_iff y.stored.id i)

-- Saving a payment leaves the rows of every other alone.
pub payment_row-update :
    (a i : Text) (clock : ℕ) (b : Text) (p : Payment) (at : ℕ) (rows : List PaymentRow) (s : Stored)
    (rows' : List PaymentRow)
    → update_payment clock b p at rows ≡ some (s, rows')
    → text_eq b a && text_eq p.id i ≡ false
    → payment_row a i rows' ≡ payment_row a i rows
unfolding payment_row is_payment update_payment
payment_row-update a i clock b p at [] s rows' h k = absurd (ground arith)
payment_row-update a i clock b p at (y ∷ rows) s rows' h k =
    elim (Option-cases (update_payment clock b p at rows)) [
      | inl n ↦ ground (
        arith,
        text_eq_iff y.account a,
        text_eq_iff y.account b,
        text_eq_iff y.stored.id i,
        text_eq_iff y.stored.id p.id,
        text_eq_iff b a,
        text_eq_iff p.id i,
      )
      | inr ((s', rest), n) ↦ ground (
        arith,
        payment_row-update a i clock b p at rows s' rest n k,
        text_eq_iff y.account a,
        text_eq_iff y.account b,
        text_eq_iff y.stored.id i,
        text_eq_iff y.stored.id p.id,
        text_eq_iff b a,
        text_eq_iff p.id i,
      )
    ]

restore-columns :
    (s : Stored) (p : Payment)
    → restore s ≡ ok p
    → (p.status ≡ s.status) × (p.id ≡ s.id) × (p.amount ≡ s.amount)
unfolding restore
restore-columns s p h =
    let (q, made) = restore-built_of s p h in
    let is = (build-opened s.id (request_of s) s.status s.created_at s.created_at q made).1 in
    ground (arith, made, is)

-- Something has arrived for a payment exactly if its row says so.
pub restore-received :
    (s : Stored) (p : Payment)
    → restore s ≡ ok p
    → Money.is_set p.received ≡ Money.is_set s.received
unfolding restore Money.is_set
restore-received s p h =
    let (q, made) = restore-built_of s p h in
    let is = (build-opened s.id (request_of s) s.status s.created_at s.created_at q made).1 in
    ground (arith, made, is)

pub restore-status : (s : Stored) (p : Payment) → restore s ≡ ok p → p.status ≡ s.status
restore-status s p h = (restore-columns s p h).0

pub restore-id : (s : Stored) (p : Payment) → restore s ≡ ok p → p.id ≡ s.id
restore-id s p h = (restore-columns s p h).1

pub restore-amount : (s : Stored) (p : Payment) → restore s ≡ ok p → p.amount ≡ s.amount
restore-amount s p h = (restore-columns s p h).2

-- Only a payment that is not final moves, and it keeps its identifier.
pub apply-not_final :
    (m : Move) (p q : Payment) → apply m p ≡ ok q → (final p.status ≡ false) × (q.id ≡ p.id)
unfolding apply final
apply-not_final m p q h = ground arith
