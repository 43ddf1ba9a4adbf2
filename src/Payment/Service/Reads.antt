-- ===== src/Payment/Service/Reads.antt =====
-- internal/payment/service.go: what shows a payment and its refunds, and what makes a payment payable.
-- The text of an event is the parameter `told`.
use sucopay.Prelude.{ℕ, List, Option, none, some, Result, ok, ◌>>=◌, map_err}
use sucopay.Text.{Text}
use sucopay.Payment.Aggregate.{Payment, Request, new_id}
use sucopay.Payment.Lifecycle.{await}
use sucopay.Payment.Units.{parse_money, units}
use sucopay.Payment.Evidence.{Transfer}
use sucopay.Payment.Refund.{Refund}
use sucopay.Payment.Store.{Database}
use sucopay.Payment.Store.Payments
use sucopay.Payment.Store.Payments.{save}
use sucopay.Payment.Store.Refunds
use sucopay.Payment.Store.Refunds.{find_refund_by_key}
use sucopay.Finality.Worker.{announce}
use sucopay.Payment.Service.{ServiceError, store, problems, money_error, open_as}

-- `Open`; a failure of the random source is `none`
unfoldable pub open_new :
    Text
    → Option (List ℕ)
    → Request
    → ℕ
    → Database
    → Option (Result ServiceError (Payment × Database))
unfolding new_id open_as
open_new account random r now d = elim (new_id random) [
  | none ↦ none
  | some id ↦ some (open_as account id r now d >>= λ (p, again, d'). ok (p, d'))
]

-- `Find`
unfoldable pub find : Text → Text → Database → Result ServiceError Payment
unfolding Payments.find
find account id d = map_err store (Payments.find account id d) >>= λ (p, at). ok p

-- `Await`
unfoldable pub make_payable :
    (Payment → Option Transfer → Text)
    → ℕ
    → Text
    → Text
    → Database
    → Result ServiceError (Payment × Database)
unfolding Payments.find await announce save
make_payable told clock account id d = do
  (p, at) ← map_err store (Payments.find account id d)
  p' ← map_err problems (await p)
  d' ← map_err store (save clock account (some p') at (announce told p' none) d)
  ok (p', d')

-- `Refund`
unfoldable pub find_refund : Text → Text → Text → Database → Result ServiceError Refund
unfolding Refunds.find_refund
find_refund account payment id d =
    map_err store (Refunds.find_refund account payment id d) >>= λ (r, at). ok r

-- `RefundByKey`
unfoldable pub refund_by_key : Text → Text → Database → Result ServiceError Refund
unfolding find_refund_by_key
refund_by_key account key d = map_err store (find_refund_by_key account key d) >>= λ (r, at). ok r

-- `Refunded`
unfoldable pub refunded_units : Text → Payment → Database → Result ServiceError Text
unfolding Refunds.refunded parse_money units
refunded_units account p d =
    map_err money_error (parse_money p.amount.asset (Refunds.refunded account p.id d)) >>= λ m.
    ok (units m)
