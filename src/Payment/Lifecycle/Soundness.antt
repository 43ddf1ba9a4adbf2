-- ===== src/Payment/Lifecycle/Soundness.antt =====
-- The invariant of a payment: what `New` makes, what every method keeps, and what `Restore` asks of
-- a row.
use sucopay.Prelude.{◌<◌, ◌≡◌, refl, ◌⊎◌, Bool, true, false, List, [], ◌∷◌, Result, ok, err, arith}
use sucopay.Payment.Money
use sucopay.Payment.Money.{Money, MoneyError, Sign, zero_money, cmp, less}
use sucopay.Payment.Metadata.{metadata_problems}
use sucopay.Payment.Status.{created, succeeded, valid}
use sucopay.Payment.Aggregate.{Payment, parse_id, parse_address, to_microsecond}
use sucopay.Payment.Problem.{Problems}
use sucopay.Payment.Lifecycle.Moves.{Move, apply, left_by, run}

-- A comparison that has an answer, and one that says "at least".
abbrev pub compares : Result MoneyError Sign → Bool
compares (ok s) = true
compares (err e) = false

abbrev pub at_least : Result MoneyError Sign → Bool
at_least (ok less) = false
at_least (ok _) = true
at_least (err e) = false

-- What arrived is an amount of the payment's asset.
abbrev pub Fits : Payment → Type 0
Fits p = (compares (cmp p.received p.amount) ≡ true) × (Money.is_set p.received ≡ true)

-- At least what is asked for has arrived, in the payment's asset.
abbrev pub IsPaid : Payment → Type 0
IsPaid p = (at_least (cmp p.received p.amount) ≡ true) × (Money.is_set p.received ≡ true)

pub record IsSound (p : Payment) : Type 0 where
  pub id_shaped : parse_id p.id ≡ ok p.id
  pub amount_given : Money.is_set p.amount ≡ true
  pub amount_positive : 0 < Money.amount_of p.amount
  pub destination_shaped : parse_address p.destination ≡ ok p.destination
  pub metadata_kept : metadata_problems p.metadata ≡ []
  pub status_valid : valid p.status ≡ true
  pub opened_before : p.created_at < p.expires_at
  pub created_whole : to_microsecond p.created_at ≡ p.created_at
  pub expires_whole : to_microsecond p.expires_at ≡ p.expires_at
  pub received_fits : (p.received ≡ zero_money) ⊎ Fits p
  pub created_unpaid : p.status ≡ created → p.received ≡ zero_money
  pub succeeded_paid : p.status ≡ succeeded → IsPaid p

apply-IsSound : (m : Move) (p p' : Payment) → IsSound p → apply m p ≡ ok p' → IsSound p'
unfolding apply
apply-IsSound Move.await p p' s h = ground arith
apply-IsSound (Move.receive m) p p' s h = ground arith
apply-IsSound Move.unreceive p p' s h = ground arith
apply-IsSound Move.succeed p p' s h = ground arith
apply-IsSound (Move.await_finality now) p p' s h = ground arith
apply-IsSound Move.fail p p' s h = ground arith
apply-IsSound Move.expire p p' s h = ground arith

left_by-IsSound : (m : Move) (p : Payment) → IsSound p → IsSound (left_by (apply m p) p)
left_by-IsSound m p s = kept (apply m p) (λ p' h. apply-IsSound m p p' s h)
  where
    kept :
        (r : Result Problems Payment)
        → ((p' : Payment) → r ≡ ok p' → IsSound p')
        → IsSound (left_by r p)
    kept (ok p') f = f p' refl
    kept (err e) f = s

-- Whatever is called on a sound payment, in any order, leaves a sound payment: one that is called
-- succeeded has been paid, and nothing has arrived for one that nobody could pay yet.
pub run-IsSound : (p : Payment) (ms : List Move) → IsSound p → IsSound (run p ms)
unfolding run
run-IsSound p [] s = s
run-IsSound p (m ∷ ms) s = run-IsSound (left_by (apply m p) p) ms (left_by-IsSound m p s)
