-- ===== src/Payment/Store/Vanishing.antt =====
-- A recorded transfer that is given up on: what is left of it, and of the payment that it was for.
use sucopay.Prelude.{
  ℕ, ◌≡◌, refl, inl, inr, Bool, true, false, not, ◌&&◌, List, [], ◌∷◌, none, some, any, ok, arith,
  Result-cases, Option-cases, Bool-cases,
}
use sucopay.Text.{Text, text_eq, text_eq_iff}
use sucopay.Payment.Store.{Database, ObservationRow}
use sucopay.Payment.Store.Payments.{payment_row}
use sucopay.Payment.Store.Observations.{is_observed, is_vanished, mark, stands}
use sucopay.Payment.Store.Arrivals.{
  Lost, is_for_payment, take_attempt_back, taken, vanish_row, lost_of, standing_row,
  vanish_transfer,
}
use sucopay.Payment.Store.Backed.{
  is_backed, status_at, IsTakenBack, take_attempt_back-keeps, take_arrival_back-IsTakenBack,
}

-- One row for each network, key and transaction.
unfoldable pub are_keyed : List ObservationRow → Bool
unfolding is_observed
are_keyed [] = true
are_keyed (row ∷ rows) = not (any (is_observed row.network row.key row.tx) rows) && are_keyed rows

mark-none :
    (test : ObservationRow → Bool) (f : ObservationRow → ObservationRow)
    (rows : List ObservationRow)
    → any test rows ≡ false
    → mark test f rows ≡ rows
unfolding mark
mark-none test f [] h = refl
mark-none test f (row ∷ rows) h = ground (arith, mark-none test f rows)

pub is_observed-key :
    (n k t : Text) (row : ObservationRow)
    → is_observed n k t row ≡ true
    → (row.network ≡ n) × (row.key ≡ k) × (row.tx ≡ t)
unfolding is_observed
is_observed-key n k t row h =
    ground (arith, text_eq_iff row.network n, text_eq_iff row.key k, text_eq_iff row.tx t)

-- The rows behind the one of a key are of other keys.
rest_differs :
    (n k t : Text) (row : ObservationRow) (rows : List ObservationRow)
    → are_keyed (row ∷ rows) ≡ true
    → is_observed n k t row ≡ true
    → any (is_observed n k t) rows ≡ false
unfolding are_keyed
rest_differs n k t row rows h o =
    let (e, f, g) = is_observed-key n k t row o in
    let here : any (is_observed row.network row.key row.tx) rows ≡ false = ground (arith, h) in
    rw (← e, ← f, ← g) here

-- Marking the row of a key leaves nothing of the key that stands.
pub standing_row-vanished :
    (n k t : Text) (now : ℕ) (rows : List ObservationRow)
    → standing_row n k t (mark (is_observed n k t) (vanish_row now) rows) ≡ none
unfolding standing_row mark vanish_row is_vanished is_observed
standing_row-vanished n k t now [] = refl
standing_row-vanished n k t now (row ∷ rows) = ground (arith, standing_row-vanished n k t now rows)

standing_row-none :
    (n k t : Text) (rows : List ObservationRow)
    → any (is_observed n k t) rows ≡ false
    → standing_row n k t rows ≡ none
unfolding standing_row
standing_row-none n k t [] h = refl
standing_row-none n k t (row ∷ rows) h = ground (arith, standing_row-none n k t rows)

-- It takes nothing from what stands for other payments.
is_for_payment-vanished :
    (n k t : Text) (now : ℕ) (rows : List ObservationRow) (row : ObservationRow) (b j : Text)
    → are_keyed rows ≡ true
    → standing_row n k t rows ≡ some row
    → text_eq row.account b && text_eq row.payment j ≡ false
    → any (is_for_payment b j) (mark (is_observed n k t) (vanish_row now) rows)
      ≡ any (is_for_payment b j) rows
unfolding standing_row mark vanish_row is_for_payment stands are_keyed
is_for_payment-vanished n k t now [] row b j h s o = absurd (ground arith)
is_for_payment-vanished n k t now (x ∷ rows) row b j h s o =
    elim (Bool-cases (is_observed n k t x)) [
      | inl e ↦
          let rest = rest_differs n k t x rows h e in
          ground (
            arith,
            mark-none (is_observed n k t) (vanish_row now) rows rest,
            standing_row-none n k t rows rest,
            e,
          )
      | inr e ↦ ground (arith, is_for_payment-vanished n k t now rows row b j, e)
    ]

-- What taking back what one observation stood for comes to.
pub taken-IsTakenBack :
    (clock : ℕ) (one : Lost) (d d' : Database)
    → taken clock one d ≡ ok d'
    → IsTakenBack clock one.account one.payment d d'
unfolding taken status_at
taken-IsTakenBack clock one d d' h = elim (Result-cases (take_attempt_back one d)) [
  | inr (e, n) ↦ absurd (ground (arith, n))
  | inl (m, n) ↦
      let (rows, seen, told, refunds) = take_attempt_back-keeps one d m n in
      let back = take_arrival_back-IsTakenBack clock one m d' (ground (arith, n)) in
      record {
        backed = back.backed;
        others = λ b j k. ground (arith, back.others b j k, rows);
        seen = ground (arith, back.seen, seen);
        told = ground (arith, back.told, told);
        refunds = ground (arith, back.refunds, refunds);
        status = ground (arith, back.status, rows);
      }
]

-- A payment whose row and whose standing transfers are as they were.
still_backed :
    (b j : Text) (d d' : Database)
    → payment_row b j d'.payments ≡ payment_row b j d.payments
    → any (is_for_payment b j) d'.observations ≡ any (is_for_payment b j) d.observations
    → is_backed b j d ≡ true
    → is_backed b j d' ≡ true
unfolding is_backed
still_backed b j d d' rows seen h = elim (Option-cases (payment_row b j d.payments)) [
  | inl n ↦ ground (arith, n, rows)
  | inr (row, n) ↦ ground (arith, n, rows, seen)
]

-- A transfer recorded against an attempt that is given up on, where each network, key and transaction
-- has one row, stands no more; nothing is announced; the payment that it was for, if it is open and
-- says that money has arrived, has another transfer that stands for it; and so has every payment that
-- had one before.
pub vanish_transfer-backed :
    (clock now : ℕ) (network key tx id : Text) (row : ObservationRow) (d d' : Database)
    → are_keyed d.observations ≡ true
    → standing_row network key tx d.observations ≡ some row
    → row.attempt ≡ some id
    → vanish_transfer clock network key tx now d ≡ ok d'
    → (standing_row network key tx d'.observations ≡ none)
      × (d'.outbox ≡ d.outbox)
      × (is_backed row.account row.payment d' ≡ true)
      × ((b j : Text) → is_backed b j d ≡ true → is_backed b j d' ≡ true)
unfolding vanish_transfer lost_of
vanish_transfer-backed clock now network key tx id row d d' distinct found against h =
    let marked : Database = record d {
      observations = mark (is_observed network key tx) (vanish_row now) d.observations;
    } in
    let one : Lost = record { account = row.account; payment = row.payment; attempt = id } in
    let run : taken clock one marked ≡ ok d' = ground (arith, found, against) in
    let back = taken-IsTakenBack clock one marked d' run in
    let gone = standing_row-vanished network key tx now d.observations in
    (
      ground (arith, back.seen, gone),
      back.told,
      back.backed,
      λ b j kept. elim (Bool-cases (text_eq row.account b && text_eq row.payment j)) [
        | inl same ↦
            ground (arith, back.backed, text_eq_iff row.account b, text_eq_iff row.payment j, same)
        | inr other ↦
            let seen =
              is_for_payment-vanished network key tx now d.observations row b j distinct found
                other in
            still_backed b j d d' (back.others b j other) (ground (arith, back.seen, seen)) kept
      ],
    )
