-- ===== src/Payment/Store/Unconfirming.antt =====
-- What giving up a recorded transfer takes from the attempt that it was for.
use sucopay.Prelude.{
  ℕ, ◌+◌, ◌≡◌, refl, inl, inr, Bool, true, false, not, ◌&&◌, ◌||◌, List, [], ◌∷◌, none, some, any,
  ok, arith, Result-cases, Option-cases, Bool-cases,
}
use sucopay.Text.{Text, text_eq, text_eq_iff, text_eq→eq}
use sucopay.Payment.AttemptStatus.{is_confirming}
use sucopay.Payment.Attempt.{Attempt, unconfirm, restore_attempt}
use sucopay.Payment.Aggregate.{Payment}
use sucopay.Payment.Lifecycle.{unreceive}
use sucopay.Payment.Store.{Database, AttemptRow, Revision}
use sucopay.Payment.Store.Payments.{find, save_payment, update_payment}
use sucopay.Payment.Store.Attempts.{
  is_of, attempt_row, find_attempt, is_revision, update_attempts, write_attempt,
}
use sucopay.Payment.Store.Arrivals.{
  Lost, is_for_attempt, is_for_payment, unless_refused, take_attempt_back, take_arrival_back,
}

-- The attempt of a key, if it is confirming, has a matched transfer that is recorded for it.
unfoldable pub is_attempt_backed : Lost → Database → Bool
unfolding attempt_row is_for_attempt
is_attempt_backed one d = elim (attempt_row one.account one.payment one.attempt d.attempts) [
  | none ↦ true
  | some row ↦ not (is_confirming row.attempt.status) || any (is_for_attempt one) d.observations
]

restore_attempt-same : (s a : Attempt) → restore_attempt s ≡ ok a → a ≡ s
unfolding restore_attempt
restore_attempt-same s a h = ground arith

attempt_row-key :
    (a p i : Text) (rows : List AttemptRow) (row : AttemptRow)
    → attempt_row a p i rows ≡ some row
    → (is_of a p row ≡ true) × (text_eq row.attempt.id i ≡ true)
unfolding attempt_row
attempt_row-key a p i [] row h = absurd (ground arith)
attempt_row-key a p i (r ∷ rows) row h = elim (Bool-cases (is_of a p r && text_eq r.attempt.id i)) [
  | inl e ↦ ground (arith, e)
  | inr e ↦ attempt_row-key a p i rows row (ground (arith, e))
]

-- The row that is found is the one that is updated, where the revision is its own.
attempt_row-updated :
    (account : Text) (a : Attempt) (rows : List AttemptRow) (row : AttemptRow)
    → attempt_row account a.payment_id a.id rows ≡ some row
    → attempt_row account a.payment_id a.id (update_attempts account a row.revision rows)
      ≡ some (record row {
        attempt = record row.attempt { status = a.status; authorizer = a.authorizer };
        revision = row.revision + 1;
      })
unfolding attempt_row update_attempts is_revision is_of
attempt_row-updated account a [] row h = absurd (ground arith)
attempt_row-updated account a (r ∷ rows) row h =
    ground (arith, attempt_row-updated account a rows row)

attempt_row-others :
    (b j k account : Text) (a : Attempt) (at : ℕ) (rows : List AttemptRow)
    → text_eq account b && (text_eq a.payment_id j && text_eq a.id k) ≡ false
    → attempt_row b j k (update_attempts account a at rows) ≡ attempt_row b j k rows
unfolding attempt_row update_attempts is_revision is_of
attempt_row-others b j k account a at [] h = refl
attempt_row-others b j k account a at (r ∷ rows) h = ground (
  arith,
  attempt_row-others b j k account a at rows,
  text_eq_iff r.account account,
  text_eq_iff r.attempt.payment_id a.payment_id,
  text_eq_iff r.attempt.id a.id,
)

-- Taking an attempt's confirmation back, by what it came to.
pub record IsUnconfirmed (one : Lost) (d d' : Database) : Type 0 where
  pub backed : is_attempt_backed one d' ≡ true
  pub kept : any (is_for_attempt one) d.observations ≡ true → d'.attempts ≡ d.attempts
  pub others :
      (b j k : Text)
      → text_eq one.account b && (text_eq one.payment j && text_eq one.attempt k) ≡ false
      → attempt_row b j k d'.attempts ≡ attempt_row b j k d.attempts

unconfirmed :
    (one : Lost) (d d' : Database) (row : AttemptRow) (b : Attempt)
    → any (is_for_attempt one) d.observations ≡ false
    → attempt_row one.account one.payment one.attempt d.attempts ≡ some row
    → unconfirm row.attempt ≡ ok b
    → write_attempt one.account b row.revision d ≡ ok d'
    → IsUnconfirmed one d d'
unfolding write_attempt unconfirm is_attempt_backed is_of
unconfirmed one d d' row b nothing found m w =
    let (of, named) = attempt_row-key one.account one.payment one.attempt d.attempts row found in
    let id : b.id ≡ one.attempt = ground (arith, m, text_eq→eq row.attempt.id one.attempt, named) in
    let pid : b.payment_id ≡ one.payment =
      ground (arith, m, text_eq→eq row.attempt.payment_id one.payment, of) in
    let rows : d'.attempts ≡ update_attempts one.account b row.revision d.attempts =
      ground (arith, w) in
    let saved = attempt_row-updated one.account b d.attempts row (ground (arith, id, pid, found)) in
    record {
      backed = ground (arith, rows, saved, id, pid, m);
      kept = λ standing. absurd (ground (arith, standing, nothing));
      others = λ x j k o. ground (
        arith,
        rows,
        attempt_row-others x j k one.account b row.revision d.attempts (ground (arith, id, pid, o)),
      );
    }

pub take_attempt_back-IsUnconfirmed :
    (one : Lost) (d d' : Database) → take_attempt_back one d ≡ ok d' → IsUnconfirmed one d d'
unfolding take_attempt_back unless_refused find_attempt is_attempt_backed unconfirm
take_attempt_back-IsUnconfirmed one d d' h =
    elim (Bool-cases (any (is_for_attempt one) d.observations)) [
      | inl standing ↦
          let same : d' ≡ d = ground (arith, standing) in
          record {
            backed =
                elim (Option-cases (attempt_row one.account one.payment one.attempt d.attempts)) [
                  | inl n ↦ ground (arith, same, n, standing)
                  | inr (row, n) ↦ ground (arith, same, n, standing)
                ];
            kept = λ s. ground (arith, same);
            others = λ b j k o. ground (arith, same);
          }
      | inr nothing ↦
          elim (Option-cases (attempt_row one.account one.payment one.attempt d.attempts)) [
            | inl n ↦ absurd (ground (arith, nothing, n))
            | inr (row, n) ↦ elim (Result-cases (restore_attempt row.attempt)) [
              | inr (e, r) ↦ absurd (ground (arith, nothing, n, r))
              | inl (a, r) ↦
                  let read = restore_attempt-same row.attempt a r in
                  elim (Result-cases (unconfirm row.attempt)) [
                    | inl (b, m) ↦
                        unconfirmed one d d' row b nothing n m
                          (ground (arith, nothing, n, r, read, m))
                    | inr (e, m) ↦
                        let same : d' ≡ d = ground (arith, nothing, n, r, read, m) in
                        record {
                          backed = ground (arith, same, n, m);
                          kept = λ s. ground (arith, same);
                          others = λ b j k o. ground (arith, same);
                        }
                  ]
            ]
          ]
    ]

save_payment-attempts :
    (clock : ℕ) (account : Text) (p : Payment) (at : Revision) (d d' : Database)
    → save_payment clock account p at d ≡ ok d'
    → d'.attempts ≡ d.attempts
unfolding save_payment
save_payment-attempts clock account p at d d' h =
    elim (Option-cases (update_payment clock account p at.at d.payments)) [
      | inl n ↦ absurd (ground (arith, n))
      | inr (found, n) ↦ ground (arith, n)
    ]

-- An arrival that another transfer stands for is not taken back, and no attempt with one.
pub take_arrival_back-kept :
    (clock : ℕ) (one : Lost) (d d' : Database)
    → take_arrival_back clock one d ≡ ok d'
    → (d'.attempts ≡ d.attempts)
      × (any (is_for_payment one.account one.payment) d.observations ≡ true
          → d'.payments ≡ d.payments)
unfolding take_arrival_back unless_refused
take_arrival_back-kept clock one d d' h =
    elim (Bool-cases (any (is_for_payment one.account one.payment) d.observations)) [
      | inl standing ↦ (ground (arith, standing), λ s. ground (arith, standing))
      | inr nothing ↦ (
        elim (Result-cases (find one.account one.payment d)) [
          | inr (e, n) ↦ absurd (ground (arith, nothing, n))
          | inl ((p, at), n) ↦ elim (Result-cases (unreceive p)) [
            | inr (e, m) ↦ ground (arith, nothing, n, m)
            | inl (q, m) ↦
                save_payment-attempts clock one.account q at d d' (ground (arith, nothing, n, m))
          ]
        ],
        λ s. absurd (ground (arith, s, nothing)),
      )
    ]
