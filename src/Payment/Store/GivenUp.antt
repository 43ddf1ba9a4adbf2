-- ===== src/Payment/Store/GivenUp.antt =====
-- A recorded transfer that is given up on, of `Vanish`: all that is taken back with it.
use sucopay.Prelude.{ℕ, ◌≡◌, inl, inr, true, false, ◌&&◌, some, none, any, ok, arith, Result-cases}
use sucopay.Text.{Text, text_eq}
use sucopay.Payment.Store.{Database, ObservationRow}
use sucopay.Payment.Store.Payments.{payment_row}
use sucopay.Payment.Store.Attempts.{attempt_row}
use sucopay.Payment.Store.Observations.{is_observed, mark}
use sucopay.Payment.Store.Arrivals.{
  Lost, is_for_attempt, is_for_payment, take_attempt_back, taken, vanish_row, lost_of, standing_row,
  vanish_transfer,
}
use sucopay.Payment.Store.Backed.{is_backed, take_attempt_back-keeps}
use sucopay.Payment.Store.Unconfirming.{
  is_attempt_backed, IsUnconfirmed, take_attempt_back-IsUnconfirmed, take_arrival_back-kept,
}
use sucopay.Payment.Store.Vanishing.{are_keyed, taken-IsTakenBack, vanish_transfer-backed}

taken-attempts :
    (clock : ℕ) (one : Lost) (d d' : Database)
    → taken clock one d ≡ ok d'
    → IsUnconfirmed one d d'
      × (any (is_for_payment one.account one.payment) d.observations ≡ true
          → d'.payments ≡ d.payments)
unfolding taken is_attempt_backed
taken-attempts clock one d d' h = elim (Result-cases (take_attempt_back one d)) [
  | inr (e, n) ↦ absurd (ground (arith, n))
  | inl (m, n) ↦
      let (payments, seen, told, refunds) = take_attempt_back-keeps one d m n in
      let step = take_attempt_back-IsUnconfirmed one d m n in
      let whole = taken-IsTakenBack clock one d d' h in
      let (attempts, kept) = take_arrival_back-kept clock one m d' (ground (arith, n)) in
      (
        record {
          backed = ground (arith, step.backed, attempts, seen, whole.seen);
          kept = λ s. ground (arith, step.kept s, attempts);
          others = λ b j k o. ground (arith, step.others b j k o, attempts);
        },
        λ s. ground (arith, kept (ground (arith, s, seen)), payments),
      )
]

-- A transfer recorded against an attempt that is given up on, where each network, key and transaction
-- has one row, stands no more. What stood on it is taken back: the attempt, if it is confirming, has
-- another matched transfer, and the payment, if it is open and says that money has arrived, another
-- that stands for it. Nothing else is: while another matched transfer is recorded for the attempt, no
-- attempt changes, and while another stands for the payment, no payment does; other attempts, other
-- payments and the refunds are as they were, nothing is announced, and every payment that had a
-- transfer to stand for it still has one.
pub vanish_transfer-taken_back :
    (clock now : ℕ) (network key tx id : Text) (row : ObservationRow) (d d' : Database)
    → are_keyed d.observations ≡ true
    → standing_row network key tx d.observations ≡ some row
    → row.attempt ≡ some id
    → vanish_transfer clock network key tx now d ≡ ok d'
    → let one : Lost = record { account = row.account; payment = row.payment; attempt = id } in
      (standing_row network key tx d'.observations ≡ none)
      × (is_attempt_backed one d' ≡ true)
      × (is_backed row.account row.payment d' ≡ true)
      × (any (is_for_attempt one) d'.observations ≡ true → d'.attempts ≡ d.attempts)
      × (any (is_for_payment row.account row.payment) d'.observations ≡ true
          → d'.payments ≡ d.payments)
      × ((b j k : Text)
          → text_eq row.account b && (text_eq row.payment j && text_eq id k) ≡ false
          → attempt_row b j k d'.attempts ≡ attempt_row b j k d.attempts)
      × ((b j : Text)
          → text_eq row.account b && text_eq row.payment j ≡ false
          → payment_row b j d'.payments ≡ payment_row b j d.payments)
      × (d'.refunds ≡ d.refunds)
      × (d'.outbox ≡ d.outbox)
      × ((b j : Text) → is_backed b j d ≡ true → is_backed b j d' ≡ true)
unfolding vanish_transfer lost_of
vanish_transfer-taken_back clock now network key tx id row d d' distinct found against h =
    let marked : Database = record d {
      observations = mark (is_observed network key tx) (vanish_row now) d.observations;
    } in
    let one : Lost = record { account = row.account; payment = row.payment; attempt = id } in
    let run : taken clock one marked ≡ ok d' = ground (arith, found, against) in
    let back = taken-IsTakenBack clock one marked d' run in
    let (attempt, arrival) = taken-attempts clock one marked d' run in
    let (gone, told, backed, all_backed) =
      vanish_transfer-backed clock now network key tx id row d d' distinct found against h in
    (
      gone,
      attempt.backed,
      backed,
      λ s. attempt.kept (ground (arith, s, back.seen)),
      λ s. arrival (ground (arith, s, back.seen)),
      attempt.others,
      back.others,
      back.refunds,
      told,
      all_backed,
    )
