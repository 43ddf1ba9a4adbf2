-- ===== src/Payment/Store/RefundSteps.antt =====
-- The steps of refunds, against what arrived.
use sucopay.Prelude.{
  ℕ, ◌+◌, ◌≤◌, ◌≡◌, ◌∙◌, true, false, ◌&&◌, List, [], ◌∷◌, ◌++◌, some, ok, arith, any, all, inl,
  inr, Option-cases, Bool-cases,
}
use sucopay.Text.{Text, text_eq, text_eq_iff}
use sucopay.Payment.Money
use sucopay.Payment.Money.{pos}
use sucopay.Payment.Status.{succeeded, status_eq}
use sucopay.Payment.RefundStatus
use sucopay.Payment.RefundStatus.{refund_status_eq}
use sucopay.Payment.Refund.{Refund, restore_refund}
use sucopay.Payment.Refund.Laws.{RefundMove, apply_move}
use sucopay.Payment.Store.{Database, PaymentRow, RefundRow, Revision, Event, write_outbox}
use sucopay.Payment.Store.Payments.{payment_row}
use sucopay.Payment.Store.Refunds.{
  held_by, refunded, create_refund, refund_of_row, insert_refund, received_column,
  idempotency_columns, find_refund, is_refund, refund_row, save_refund, update_refunds,
}
use sucopay.Payment.Store.Held.{
  remaining-print, fits_below, held_by-append, held_by-update, are_distinct-append,
  are_distinct-update, found_met_held, met_held,
}
use sucopay.Payment.Store.Steps.{Covers, IsCovered}

Covers-fewer :
    (ps : List PaymentRow) (rs rs' : List RefundRow) (a i : Text)
    → held_by a i rs' ≤ held_by a i rs
    → Covers ps rs a i
    → Covers ps rs' a i
Covers-fewer ps rs rs' a i h (inl z) = inl (omega arith)
Covers-fewer ps rs rs' a i h (inr (row, found, s, le)) = inr (row, found, s, omega arith)

-- The row that a new refund is.
abbrev new_row : Text → Refund → RefundRow
new_row account r = record {
  account = account;
  refund = record r { idempotency = idempotency_columns r.idempotency; closed_at = 0 };
  version = 1;
}

inserted :
    (account : Text) (r : Refund) (d d' : Database)
    → insert_refund account r d ≡ ok d'
    → d' ≡ record d { refunds = d.refunds ++ new_row account r ∷ [] }
unfolding insert_refund
inserted account r d d' h = ground arith

-- A refund that a payment has room for.
room :
    (account : Text) (r : Refund) (row : PaymentRow) (d d' : Database)
    → refund_of_row account r row d ≡ ok d'
    → (row.stored.status ≡ succeeded)
      × (held_by account r.payment_id d.refunds + Money.amount_of r.amount
          ≤ Money.amount_of row.stored.received)
      × (insert_refund account r d ≡ ok d')
unfolding refund_of_row received_column refunded status_eq
room account r row d d' h = ground (
  arith,
  remaining-print (Money.amount_of row.stored.received) (held_by account r.payment_id d.refunds),
  fits_below (Money.amount_of row.stored.received) (held_by account r.payment_id d.refunds)
      (Money.amount_of r.amount),
)

created-row :
    (account : Text) (r : Refund) (d d' : Database)
    → create_refund account (some r) d ≡ ok d'
    → (row : PaymentRow) × (payment_row account r.payment_id d.payments ≡ some row)
      × (refund_of_row account r row d ≡ ok d')
unfolding create_refund
created-row account r d d' h = elim (Option-cases (payment_row account r.payment_id d.payments)) [
  | inl n ↦ absurd (ground arith)
  | inr (row, n) ↦ (row, n, ground arith)
]

module _ (account : Text) (r : Refund) (d d' : Database)
    (new : any (λ row. text_eq row.account account && text_eq row.refund.id r.id) d.refunds ≡ false)
    (h : create_refund account (some r) d ≡ ok d') where
  refund_created-Covers :
      (a i : Text) → Covers d.payments d.refunds a i → Covers d'.payments d'.refunds a i
  unfolding held_by
  refund_created-Covers a i c =
      let (row, found, made) = created-row account r d d' h in
      let (paid, fits, added) = room account r row d d' made in
      let is = inserted account r d d' added in
      let sum = held_by-append a i d.refunds (new_row account r) in
      elim (Bool-cases (text_eq account a && text_eq r.payment_id i)) [
        | inl this ↦ inr (
          row,
          ground (arith, text_eq_iff account a, text_eq_iff r.payment_id i),
          paid,
          ground (arith, text_eq_iff account a, text_eq_iff r.payment_id i),
        )
        | inr other ↦ elim c [
          | inl z ↦ inl (ground arith)
          | inr (held, was, paid', le) ↦ inr (held, ground arith, paid', ground arith)
        ]
      ]

  pub refund_created-IsCovered : IsCovered d → IsCovered d'
  refund_created-IsCovered c = record {
    distinct =
        let (row, found, made) = created-row account r d d' h in
        let is = inserted account r d d' (room account r row d d' made).2 in
        rw is (are_distinct-append (new_row account r) d.refunds c.distinct new);
    covers = λ a i. refund_created-Covers a i (c.covers a i);
  }

-- A refund that moved was not expired, and nothing else that the save meets was.
found-refund_row :
    (account payment id : Text) (d : Database) (r : Refund) (at : Revision)
    → find_refund account payment id d ≡ ok (r, at)
    → (row : RefundRow) × (refund_row account payment id d.refunds ≡ some row) × (r ≡ row.refund)
unfolding find_refund restore_refund
found-refund_row account payment id d r at h =
    elim (Option-cases (refund_row account payment id d.refunds)) [
      | inl n ↦ absurd (ground arith)
      | inr (row, n) ↦ (row, n, ground arith)
    ]

moved-is_held :
    (m : RefundMove) (r q : Refund)
    → apply_move m r ≡ ok q
    → (refund_status_eq r.status RefundStatus.expired ≡ false) × (q.id ≡ r.id)
unfolding apply_move refund_status_eq
moved-is_held m r q h = ground arith

refund_row-id :
    (a i id : Text) (rows : List RefundRow) (row : RefundRow)
    → refund_row a i id rows ≡ some row
    → row.refund.id ≡ id
unfolding refund_row is_refund
refund_row-id a i id [] row h = absurd (ground arith)
refund_row-id a i id (y ∷ rows) row h =
    ground (arith, refund_row-id a i id rows row, text_eq_iff y.refund.id id)

refund_saved :
    (clock : ℕ) (account : Text) (q : Refund) (at : Revision) (e : Event) (d d' : Database)
    → save_refund clock account (some q) at e d ≡ ok d'
    → (d'.refunds ≡ update_refunds clock account q at.at d.refunds) × (d'.payments ≡ d.payments)
unfolding save_refund write_outbox
refund_saved clock account q at e d d' h = ground arith

module _ (clock : ℕ) (account payment id : Text) (r q : Refund) (at : Revision) (m : RefundMove)
    (e : Event) (d d' : Database) (f : find_refund account payment id d ≡ ok (r, at))
    (moved : apply_move m r ≡ ok q)
    (saved : save_refund clock account (some q) at e d ≡ ok d') where
  all_held : IsCovered d → all (met_held account q.id at.at) d.refunds ≡ true
  all_held c =
      let (row, found, is) = found-refund_row account payment id d r at f in
      let (open_, kept) = moved-is_held m r q moved in
      let named = refund_row-id account payment id d.refunds row found in
      let met =
        found_met_held account payment id at.at row d.refunds c.distinct found (ground arith) in
      ground (arith, met)

  pub refund_moved-IsCovered : IsCovered d → IsCovered d'
  refund_moved-IsCovered c =
      let (rows, same) = refund_saved clock account q at e d d' saved in
      record {
        distinct = rw rows (are_distinct-update clock account q at.at d.refunds ∙ c.distinct);
        covers = λ a i. rw same (
            Covers-fewer d.payments d.refunds d'.refunds a i
              (rw rows (held_by-update a i clock account q at.at d.refunds (all_held c)))
              (c.covers a i));
      }
