-- ===== src/Payment/Store/Arriving.antt =====
-- An arrival that is read again.
use sucopay.Prelude.{
  ℕ, suc, ◌≡◌, ◌⊎◌, inl, inr, true, not, IsOk, ◌||◌, some, ok, arith, Result-cases, Option-cases,
  Bool-cases,
}
use sucopay.Payment.Money
use sucopay.Payment.Money.{Money, amount_of}
use sucopay.Payment.Units.{parse_money}
use sucopay.Payment.Units.Parsed.{parse_money-asset}
use sucopay.Payment.Aggregate.{Payment, record_received, restore}
use sucopay.Payment.Lifecycle.{can_receive, receive}
use sucopay.Payment.Store.{Database, PaymentRow}
use sucopay.Payment.Store.Payments.{payment_row, find, update_payment, saved_columns, save_payment}
use sucopay.Payment.Store.Rows.{payment_row-key, restore-id, restore-received, restore-amount}
use sucopay.Payment.Store.Rereading.{received-IsOk}
use sucopay.Payment.Store.Observations.{Seen, stands}
use sucopay.Payment.Store.Arrivals.{unless_refused, receive_arrival, arrived}
use sucopay.Payment.Store.Backed.{find-row, payment_row-saved}

receive-set :
    (m : Money) (p q : Payment)
    → receive m p ≡ ok q
    → (Money.is_set m ≡ true) × (q.received ≡ m) × (q.id ≡ p.id)
unfolding receive record_received Money.is_set
receive-set m p q h = ground arith

-- A payment that something has arrived for, and that is read, is left alone.
receive_arrival-set :
    (clock : ℕ) (one : Seen) (d : Database) (row : PaymentRow)
    → payment_row one.hit.account one.hit.payment.id d.payments ≡ some row
    → Money.is_set row.stored.received ≡ true
    → IsOk (restore row.stored)
    → receive_arrival clock one d ≡ ok d
unfolding receive_arrival find
receive_arrival-set clock one d row found set (p, read) =
    ground (arith, found, read, set, restore-received row.stored p read)

-- What an arrival writes: nothing, or a row that says it.
receive_arrival-written :
    (clock : ℕ) (one : Seen) (d d' : Database)
    → receive_arrival clock one d ≡ ok d'
    → (((later : ℕ) → receive_arrival later one d ≡ ok d) × (d' ≡ d))
      ⊎ ((row : PaymentRow) × (payment_row one.hit.account one.hit.payment.id d'.payments
            ≡ some row)
          × (Money.is_set row.stored.received ≡ true)
          × IsOk (restore row.stored))
unfolding receive_arrival unless_refused save_payment saved_columns Money.is_set
receive_arrival-written clock one d d' h =
    elim (Result-cases (find one.hit.account one.hit.payment.id d)) [
      | inr (e, n) ↦ absurd (ground (arith, n))
      | inl ((p, at), n) ↦ elim (Bool-cases (not (can_receive p) || Money.is_set p.received)) [
        | inl closed ↦ inl (λ later. ground (arith, n, closed), ground (arith, n, closed))
        | inr payable ↦ elim (Result-cases (parse_money p.amount.asset one.transfer.value)) [
          | inr (e, m) ↦ inl (λ later. ground (arith, n, payable, m), ground (arith, n, payable, m))
          | inl (m, q) ↦ elim (Result-cases (receive m p)) [
            | inr (e, r) ↦ absurd (ground (arith, n, payable, q, r))
            | inl (p', r) ↦
                let (row, found, read, version) =
                  find-row one.hit.account one.hit.payment.id d p at n in
                let (set, holds, same) = receive-set m p p' r in
                let asset = parse_money-asset p.amount.asset one.transfer.value m q in
                elim (Option-cases (update_payment clock one.hit.account p' at.at d.payments)) [
                  | inl u ↦ absurd (ground (arith, n, payable, q, r, u))
                  | inr ((s, rows), u) ↦
                      let id : p'.id ≡ one.hit.payment.id = ground (
                        arith,
                        same,
                        restore-id row.stored p,
                        payment_row-key one.hit.account one.hit.payment.id d.payments row found,
                      ) in
                      let saved =
                        payment_row-saved clock one.hit.account p' d.payments row s rows
                          (ground (arith, id, found)) (ground (arith, u, version)) in
                      let kept : d'.payments ≡ rows = ground (arith, n, payable, q, r, u, h) in
                      inr (
                        record row {
                          stored = saved_columns clock p' row.stored;
                          version = suc row.version;
                        },
                        ground (arith, kept, saved, id),
                        ground (arith, set, holds, asset, restore-amount row.stored p),
                        received-IsOk clock row.stored p p' m read
                            (ground (arith, asset, restore-amount row.stored p read)) r,
                      )
                ]
          ]
        ]
      ]
    ]

-- A transfer that arrived, read again at any later moment, is no error and writes nothing.
pub arrived-again :
    (clock later : ℕ) (one : Seen) (d d' : Database)
    → arrived clock one d ≡ ok d'
    → arrived later one d' ≡ ok d'
unfolding arrived
arrived-again clock later one d d' h = elim (Bool-cases (stands one.reason)) [
  | inr neither ↦ ground (arith, neither)
  | inl stand ↦ elim (receive_arrival-written clock one d d' (ground (arith, stand))) [
    | inl (again, same) ↦ ground (arith, stand, again later, same)
    | inr (row, found, set, read) ↦
        ground (arith, stand, receive_arrival-set later one d' row found set read)
  ]
]
