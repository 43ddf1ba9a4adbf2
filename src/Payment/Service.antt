-- ===== src/Payment/Service.antt =====
-- internal/payment/service.go: what a request handler calls. Each call reads and writes the database
-- of Payment/Store with nothing between.
pub mod Opening
pub mod Reads
pub mod Retry
pub mod Steps
pub mod Issued
pub mod Superseded
pub mod Sighted
pub mod Issuing
use sucopay.Prelude.{
  ℕ, ◌+◌, ◌-◌, ◌*◌, Bool, true, false, not, ◌&&◌, List, [], ◌∷◌, ◌++◌, Option, none, some, ltb, leb,
  ◌==◌, if◌then◌else◌, is_empty, is_some, Result, ok, err, ◌>>=◌, ◌>>◌, map_err,
}
use sucopay.Text.{Text, text_eq, codes}
use sucopay.Text.Decimal.{print}
use sucopay.Payment.Money
use sucopay.Payment.Money.{Money, ℤ, pos, negsuc, new_money, MoneyError}
use sucopay.Payment.Status.{Status, created, awaiting_payment, status_eq}
use sucopay.Payment.Problem.{Problems, one, after_latest}
use sucopay.Payment.Aggregate.{Payment, Request, Idempotency, build, new_id}
use sucopay.Payment.Attempt
use sucopay.Payment.Attempt.{Attempt, AttemptError, new_attempt, supersede, second}
use sucopay.Payment.Refund
use sucopay.Payment.Refund.{Refund, RefundRequest, RefundError, new_refund}
use sucopay.Payment.Store.{Database, Revision, StoreError, idempotency_key_used, attempt_live}
use sucopay.Payment.Store.Payments.{find, find_by_key, create}
use sucopay.Payment.Store
use sucopay.Payment.Store.Attempts.{issue, live, attempted, save_attempt}
use sucopay.Payment.Store.Refunds.{create_refund, refunded, remaining}

-- The errors of a call.
pub data ServiceError : Type 0 where
  store : StoreError → ServiceError
  problems : Problems → ServiceError
  attempt : AttemptError → ServiceError
  refund : RefundError → ServiceError
  not_awaiting : Status → ServiceError
  no_position : Text → ServiceError
  money_error : MoneyError → ServiceError
  already_reissued no_such_attempt : ServiceError

-- `DefaultExpiry`, `MaxExpiry`, `MaxAttempts`
abbrev pub default_expiry : ℕ
default_expiry = 15 * 60 * second

abbrev pub max_expiry : ℕ
max_expiry = 30 * 24 * 60 * 60 * second

abbrev pub max_attempts : ℕ
max_attempts = 2

-- The request with the deadline that it has.
unfoldable pub with_deadline : Request → ℕ → Request
with_deadline r now = record r {
  expires_at = if r.expires_at == 0 then now + default_expiry else r.expires_at;
}

-- A deadline that is further off than any may be.
unfoldable pub too_far : Request → ℕ → Problems
too_far r now =
    if ltb (now + max_expiry) r.expires_at
    then one (codes "expires_at") (after_latest r.expires_at (now + max_expiry))
    else []

problems_of : Result Problems Payment → Problems
problems_of (ok p) = []
problems_of (err e) = e

-- `opened`
unfoldable pub opened : Text → Idempotency → Database → Result ServiceError (Payment × Bool)
unfolding find_by_key
opened account i d = do
  found ← map_err store (find_by_key account i.key d)
  if text_eq found.0.idempotency.body_hash i.body_hash
      then ok (found.0, true)
      else err (store idempotency_key_used)

-- What the answer of `Create` becomes: a key that was used is looked up, in the database as it is.
unfoldable pub created_or_opened :
    Text
    → Payment
    → Idempotency
    → Database
    → Result StoreError Database
    → Result ServiceError (Payment × Bool × Database)
unfolding opened
created_or_opened account p i d (ok d') = ok (p, false, d')
created_or_opened account p i d (err idempotency_key_used) = do
  found ← opened account i d
  ok (found.0, found.1, d)
created_or_opened account p i d (err e) = err (store e)

unfoldable pub stored_or_refused :
    Text
    → Request
    → Database
    → Problems
    → Result Problems Payment
    → Result ServiceError (Payment × Bool × Database)
unfolding created_or_opened create
stored_or_refused account r d found (err e) = err (problems (e ++ found))
stored_or_refused account r d found (ok p) =
    if not (is_empty found)
    then err (problems found)
    else created_or_opened account p r.idempotency d (create account p d)

-- `OpenAs`
unfoldable pub open_as :
    Text → Text → Request → ℕ → Database → Result ServiceError (Payment × Bool × Database)
unfolding with_deadline too_far stored_or_refused
open_as account id r now d =
    let r' = with_deadline r now in
    stored_or_refused account r' d (too_far r' now) (build id r' created now now)

-- A test that has to hold.
abbrev pub require : Bool → ServiceError → Result ServiceError (Unit {0})
require true e = ok tt
require false e = err e

-- `Issue` of the service: an attempt, the payment, and the database.
unfoldable pub issue_attempt :
    Text
    → Text
    → ℕ
    → (Text → Bool)
    → Option (List ℕ)
    → Option (List ℕ)
    → Database
    → Result ServiceError (Attempt × Payment × Database)
unfolding status_eq find live issue new_attempt
issue_attempt account id now has_position random_id random_key d = do
  found ← map_err store (find account id d)
  let p = found.0
  require (status_eq p.status awaiting_payment) (not_awaiting p.status)
  going ← map_err store (live account id d)
  require (not (is_some going)) (store attempt_live)
  require (has_position p.amount.asset.network) (no_position p.amount.asset.network)
  a ← map_err attempt (new_attempt (some p) now random_id random_key)
  d' ← map_err store (issue account (some a) d)
  ok (a, p, d')

-- The live attempt, if it is the one that is named.
unfoldable pub the_live :
    Text → Option (Attempt × Revision) → Result ServiceError (Attempt × Revision)
the_live id none = err no_such_attempt
the_live id (some (a, at)) = if text_eq a.id id then ok (a, at) else err no_such_attempt

-- `Supersede` of the service
unfoldable pub supersede_attempt : Text → Text → Text → Database → Result ServiceError Database
unfolding status_eq find live the_live attempted supersede save_attempt
supersede_attempt account payment id d = do
  found ← map_err store (find account payment d)
  require (status_eq found.0.status awaiting_payment) (not_awaiting found.0.status)
  going ← map_err store (live account payment d)
  named ← the_live id going
  require (ltb (attempted account payment d) max_attempts) already_reissued
  a ← map_err attempt (supersede named.0)
  map_err store (save_attempt account (some a) named.1 d)

-- `OpenRefund`
unfoldable pub open_refund :
    Text
    → Option Payment
    → Text
    → RefundRequest
    → ℕ
    → Option (List ℕ)
    → Database
    → Result ServiceError (Refund × Database)
unfolding new_refund create_refund
open_refund account p id r now random d = do
  f ← map_err refund (new_refund p id r now random)
  d' ← map_err store (create_refund account (some f) d)
  ok (f, d')

not_negative : ℤ → ℤ
not_negative (pos n) = pos n
not_negative (negsuc n) = pos 0

-- `Refundable`
unfoldable pub refundable : Text → Payment → Database → Result ServiceError Money
unfolding refunded remaining not_negative new_money print Money.amount_of
refundable account p d = do
  left ← map_err store (remaining (print (Money.amount_of p.received)) (refunded account p.id d))
  map_err money_error (new_money p.amount.asset (some (not_negative left)))
