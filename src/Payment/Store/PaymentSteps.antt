-- ===== src/Payment/Store/PaymentSteps.antt =====
-- The steps of payments, against what refunds hold.
use sucopay.Prelude.{
  ℕ, ◌≡◌, ◌∙◌, ◌≢◌, ◌&&◌, [], ◌∷◌, ◌++◌, some, ok, arith, inl, inr, Option-cases, Bool-cases,
}
use sucopay.Text.{Text, text_eq, text_eq_iff}
use sucopay.Payment.Status.{succeeded, status_eq}
use sucopay.Payment.Status
use sucopay.Payment.Aggregate.{Payment, Stored}
use sucopay.Payment.Lifecycle.Moves.{Move, apply}
use sucopay.Payment.Store.{Database, PaymentRow, Revision, Event, write_outbox}
use sucopay.Payment.Store.Payments.{
  payment_row, find, create, insert_payment, created_columns, save, save_payment, update_payment,
}
use sucopay.Payment.Store.Rows.{
  payment_row-append, payment_row-key, payment_row-update, restore-status, restore-id,
  apply-not_final,
}
use sucopay.Payment.Store.Steps.{Covers, IsCovered}

create-rows :
    (account : Text) (p : Payment) (d d' : Database)
    → create account p d ≡ ok d'
    → (d'.refunds ≡ d.refunds) × ((x : PaymentRow) × (d'.payments ≡ d.payments ++ x ∷ []))
unfolding create insert_payment
create-rows account p d d' h = (
  ground arith,
  (record { account = account; stored = created_columns p; version = 1 }, ground arith),
)

pub payment_created-IsCovered :
    (account : Text) (p : Payment) (d d' : Database)
    → create account p d ≡ ok d'
    → IsCovered d
    → IsCovered d'
payment_created-IsCovered account p d d' h c =
    let (same, (x, added)) = create-rows account p d d' h in
    record {
      distinct = cc (same, c.distinct);
      covers = λ a i. elim (c.covers a i) [
        | inl z ↦ inl (rw same z)
        | inr (row, found, s, le) ↦
            inr (row, rw added (payment_row-append a i d.payments row x found), s, rw same le)
      ];
    }

save-rows :
    (clock : ℕ) (account : Text) (p : Payment) (at : Revision) (e : Event) (d d' : Database)
    → save clock account (some p) at e d ≡ ok d'
    → (d'.refunds ≡ d.refunds)
      × ((s : Stored) × (update_payment clock account p at.at d.payments ≡ some (s, d'.payments)))
unfolding save save_payment write_outbox
save-rows clock account p at e d d' h =
    elim (Option-cases (update_payment clock account p at.at d.payments)) [
      | inl n ↦ absurd (ground arith)
      | inr ((s, rows), n) ↦ (ground arith, (s, ground arith))
    ]

find-row :
    (account id : Text) (d : Database) (p : Payment) (at : Revision)
    → find account id d ≡ ok (p, at)
    → (row : PaymentRow) × (payment_row account id d.payments ≡ some row)
      × (p.status ≡ row.stored.status)
      × (p.id ≡ id)
unfolding find
find-row account id d p at h = elim (Option-cases (payment_row account id d.payments)) [
  | inl n ↦ absurd (ground arith)
  | inr (row, n) ↦ (
    row,
    n,
    ground (arith, restore-status row.stored p),
    restore-id row.stored p (ground arith) ∙ payment_row-key account id d.payments row n,
  )
]

-- A payment that moves had not succeeded.
moved-not_succeeded : (m : Move) (p q : Payment) → apply m p ≡ ok q → p.status ≢ succeeded
unfolding Status.final
moved-not_succeeded m p q h = ground (arith, apply-not_final m p q h)

module _ (clock : ℕ) (account id : Text) (p q : Payment) (at : Revision) (m : Move) (e : Event)
    (d d' : Database) (f : find account id d ≡ ok (p, at)) (moved : apply m p ≡ ok q)
    (saved : save clock account (some q) at e d ≡ ok d') where
  moved-Covers : (a i : Text) → Covers d.payments d.refunds a i → Covers d'.payments d'.refunds a i
  moved-Covers a i (inl z) = inl (rw (save-rows clock account q at e d d' saved).0 z)
  moved-Covers a i (inr (held, is, paid, le)) =
      let (row, found, was, named) = find-row account id d p at f in
      let (same, (s, updated)) = save-rows clock account q at e d d' saved in
      elim (Bool-cases (text_eq account a && text_eq q.id i)) [
        | inl this ↦ absurd (
            ground (
              arith,
              text_eq_iff account a,
              text_eq_iff q.id i,
              moved-not_succeeded m p q moved,
              apply-not_final m p q moved,
            ))
        | inr other ↦ inr (
          held,
          payment_row-update a i clock account q at.at d.payments s d'.payments updated other ∙ is,
          paid,
          rw same le,
        )
      ]

  pub payment_moved-IsCovered : IsCovered d → IsCovered d'
  payment_moved-IsCovered c = record {
    distinct = rw (save-rows clock account q at e d d' saved).0 c.distinct;
    covers = λ a i. moved-Covers a i (c.covers a i);
  }
