-- ===== src/Payment/Store/Attempts.antt =====
-- internal/payment/postgres.go: attempts as rows.
use sucopay.Prelude.{
  ℕ, ◌+◌, Bool, not, ◌&&◌, ◌||◌, List, [], ◌∷◌, ◌++◌, Option, none, some, ◌==◌, if◌then◌else◌, any,
  Result, ok, err, ◌>>=◌, ◌>>◌, map_err,
}
use sucopay.Text.{Text, text_eq, codes}
use sucopay.Payment.AttemptStatus.{AttemptStatus, is_issued, is_confirming, valid}
use sucopay.Payment.Attempt.{Attempt, restore_attempt}
use sucopay.Payment.Store.{
  Database, AttemptRow, Revision, StoreError, not_found, stale, key_taken, attempt_live,
  nothing_given, bad_attempt, constraint, refuse_if,
}
use sucopay.Payment.Store.Payments.{is_payment}

-- `account_id = $1 and payment_id = $2`
unfoldable pub is_of : Text → Text → AttemptRow → Bool
is_of account payment row = text_eq row.account account && text_eq row.attempt.payment_id payment

-- `status in ('issued', 'confirming')`
unfoldable pub is_live : AttemptStatus → Bool
is_live s = is_issued s || is_confirming s

-- `Issue`, with the check first, the unique keys in the order that they were created in, and the
-- foreign key last.
unfoldable pub issue : Text → Option Attempt → Database → Result StoreError Database
unfolding is_of is_live valid is_payment
issue account none d = err nothing_given
issue account (some a) d = do
  refuse_if (not (valid a.status)) (constraint (codes "attempts_status_is_one_of_the_lifecycle"))
  refuse_if (any (λ row. is_of account a.payment_id row && text_eq row.attempt.id a.id) d.attempts)
      (constraint (codes "attempts_pkey"))
  refuse_if
      (any (λ row. text_eq row.attempt.network a.network && text_eq row.attempt.key a.key)
        d.attempts)
      key_taken
  refuse_if
      (is_live a.status
        && any (λ row. is_of account a.payment_id row && is_live row.attempt.status) d.attempts)
      attempt_live
  refuse_if (not (any (is_payment account a.payment_id) d.payments))
      (constraint (codes "attempts_account_id_payment_id_fkey"))
  ok (record d {
    attempts = d.attempts ++ record { account = account; attempt = a; revision = 1 } ∷ [];
  })

-- The row of an attempt.
unfoldable pub attempt_row : Text → Text → Text → List AttemptRow → Option AttemptRow
unfolding is_of
attempt_row account payment id [] = none
attempt_row account payment id (row ∷ rows) =
    let rest = attempt_row account payment id rows in
    if is_of account payment row && text_eq row.attempt.id id then some row else rest

-- `findAttempt`
unfoldable pub find_attempt : Text → Text → Text → Database → Result StoreError (Attempt × Revision)
unfolding attempt_row
find_attempt account payment id d = elim (attempt_row account payment id d.attempts) [
  | none ↦ err not_found
  | some row ↦ do
    a ← map_err bad_attempt (restore_attempt row.attempt)
    ok (a, record { id = row.attempt.id; at = row.revision })
]

-- The live row of a payment.
unfoldable pub live_row : Text → Text → List AttemptRow → Option AttemptRow
unfolding is_of is_live
live_row account payment [] = none
live_row account payment (row ∷ rows) =
    let rest = live_row account payment rows in
    if is_of account payment row && is_live row.attempt.status then some row else rest

-- `Live`; the false that it answers is `none`
unfoldable pub live : Text → Text → Database → Result StoreError (Option (Attempt × Revision))
unfolding live_row
live account payment d = elim (live_row account payment d.attempts) [
  | none ↦ ok none
  | some row ↦ do
    a ← map_err bad_attempt (restore_attempt row.attempt)
    ok (some (a, record { id = row.attempt.id; at = row.revision }))
]

-- `Attempted`
unfoldable pub attempts_of : Text → Text → List AttemptRow → ℕ
unfolding is_of
attempts_of account payment [] = 0
attempts_of account payment (row ∷ rows) =
    (if is_of account payment row then 1 else 0) + attempts_of account payment rows

unfoldable pub attempted : Text → Text → Database → ℕ
unfolding attempts_of
attempted account payment d = attempts_of account payment d.attempts

-- `account_id = $1 and payment_id = $2 and id = $3 and revision = $4`
unfoldable pub is_revision : Text → Attempt → ℕ → AttemptRow → Bool
unfolding is_of
is_revision account a at row =
    is_of account a.payment_id row && (text_eq row.attempt.id a.id && row.revision == at)

-- `update attempts`
unfoldable pub update_attempts : Text → Attempt → ℕ → List AttemptRow → List AttemptRow
unfolding is_revision
update_attempts account a at [] = []
update_attempts account a at (row ∷ rows) =
    (if is_revision account a at row
      then record row {
        attempt = record row.attempt { status = a.status; authorizer = a.authorizer };
        revision = row.revision + 1;
      }
      else row)
    ∷ update_attempts account a at rows

-- `saveAttempt`
unfoldable pub write_attempt : Text → Attempt → ℕ → Database → Result StoreError Database
unfolding is_revision update_attempts valid
write_attempt account a at d = do
  refuse_if (not (any (is_revision account a at) d.attempts)) stale
  refuse_if (not (valid a.status)) (constraint (codes "attempts_status_is_one_of_the_lifecycle"))
  ok (record d { attempts = update_attempts account a at d.attempts })

-- `SaveAttempt`
unfoldable pub save_attempt :
    Text → Option Attempt → Revision → Database → Result StoreError Database
unfolding write_attempt
save_attempt account none at d = err nothing_given
save_attempt account (some a) at d =
    refuse_if (not (text_eq at.id a.id)) stale >> write_attempt account a at.at d
