-- ===== src/Payment/Store/Quiet.antt =====
-- A recorded transfer that is given up on tells nobody.
use sucopay.Prelude.{ℕ, ◌≡◌, inl, inr, ◌&&◌, ok, arith, Option-cases, Bool-cases}
use sucopay.Text.{Text, text_eq, text_eq_iff}
use sucopay.Payment.Store.{Database}
use sucopay.Payment.Store.Observations.{is_observed, mark}
use sucopay.Payment.Store.Arrivals.{Lost, taken, vanish_row, lost_of, standing_row, vanish_transfer}
use sucopay.Payment.Store.Backed.{status_at}
use sucopay.Payment.Store.Vanishing.{taken-IsTakenBack}

-- A database of which nothing is told: no event, no refund and no status of a payment is another.
pub record IsQuiet (d d' : Database) : Type 0 where
  pub told : d'.outbox ≡ d.outbox
  pub refunds : d'.refunds ≡ d.refunds
  pub statuses : (a i : Text) → status_at a i d' ≡ status_at a i d

taken-IsQuiet :
    (clock : ℕ) (one : Lost) (d d' : Database) → taken clock one d ≡ ok d' → IsQuiet d d'
unfolding status_at
taken-IsQuiet clock one d d' h =
    let back = taken-IsTakenBack clock one d d' h in
    record {
      told = back.told;
      refunds = back.refunds;
      statuses = λ b j. elim (Bool-cases (text_eq one.account b && text_eq one.payment j)) [
        | inl same ↦
            ground (arith, back.status, text_eq_iff one.account b, text_eq_iff one.payment j, same)
        | inr other ↦ ground (arith, back.others b j other)
      ];
    }

pub vanish_transfer-IsQuiet :
    (clock : ℕ) (network key tx : Text) (now : ℕ) (d d' : Database)
    → vanish_transfer clock network key tx now d ≡ ok d'
    → IsQuiet d d'
unfolding vanish_transfer lost_of status_at
vanish_transfer-IsQuiet clock network key tx now d d' h =
    let marked : Database = record d {
      observations = mark (is_observed network key tx) (vanish_row now) d.observations;
    } in
    elim (Option-cases (standing_row network key tx d.observations)) [
      | inl n ↦
          let same : d' ≡ d = ground (arith, n) in
          record {
            told = ground (arith, same);
            refunds = ground (arith, same);
            statuses = λ a i. ground (arith, same);
          }
      | inr (row, n) ↦ elim (Option-cases row.attempt) [
        | inl m ↦
            let same : d' ≡ marked = ground (arith, n, m) in
            record {
              told = ground (arith, same);
              refunds = ground (arith, same);
              statuses = λ a i. ground (arith, same);
            }
        | inr (id, m) ↦
            let one : Lost = record {
              account = row.account;
              payment = row.payment;
              attempt = id;
            } in
            let quiet = taken-IsQuiet clock one marked d' (ground (arith, n, m)) in
            record {
              told = ground (arith, quiet.told);
              refunds = ground (arith, quiet.refunds);
              statuses = λ a i. ground (arith, quiet.statuses a i);
            }
      ]
    ]
