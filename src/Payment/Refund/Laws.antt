-- ===== src/Payment/Refund/Laws.antt =====
-- What a new refund promises, its row, and the moves of a refund.
use sucopay.Prelude.{
  ℕ, ◌+◌, ◌≤◌, ◌<◌, ◌≡◌, refl, true, List, [], ◌∷◌, Option, some, Result, ok, err, arith,
  append-eq-nil,
}
use sucopay.Text.{Text}
use sucopay.Payment.Asset
use sucopay.Payment.Money
use sucopay.Payment.Money.{Money}
use sucopay.Payment.Status.{Status}
use sucopay.Payment.RefundStatus.{created, final}
use sucopay.Payment.Problem.{Problems}
use sucopay.Payment.Aggregate.{Payment, parse_address, to_microsecond, problems_of_address}
use sucopay.Payment.Aggregate.Opening.{address_problems-eq-nil}
use sucopay.Payment.Refund.{
  Refund, RefundRequest, refund_life, new_refund, restore_refund, settle, await_finality, expire,
  refund_problems, refund_of, token_is_set, amount_problems, status_refused, token_problems,
  PageToken,
}

-- What a request to refund has to meet.
pub record IsRefundable (p : Payment) (r : RefundRequest) : Type 0 where
  pub settled : p.status ≡ Status.succeeded
  pub amount_given : Money.is_set r.amount ≡ true
  pub amount_positive : 0 < Money.amount_of r.amount
  pub same_asset : Asset.same r.amount.asset p.amount.asset ≡ true
  pub destination_shaped : parse_address r.destination ≡ ok r.destination
  pub token_given : token_is_set r.token ≡ true

status_refused-eq-nil : (p : Payment) → status_refused p ≡ [] → p.status ≡ Status.succeeded
unfolding status_refused
status_refused-eq-nil p h = ground arith

token_problems-eq-nil : (t : PageToken) → token_problems t ≡ [] → token_is_set t ≡ true
unfolding token_problems
token_problems-eq-nil t h = ground arith

amount_problems-eq-nil :
    (p : Payment) (m : Money)
    → amount_problems p m ≡ []
    → (Money.is_set m ≡ true) × (0 < Money.amount_of m) × (Asset.same m.asset p.amount.asset ≡ true)
unfolding amount_problems
amount_problems-eq-nil p m h = ground arith

refund_problems-IsRefundable :
    (p : Payment) (id : Text) (r : RefundRequest) → refund_problems p id r ≡ [] → IsRefundable p r
unfolding refund_problems
refund_problems-IsRefundable p id r h =
    let of_status = append-eq-nil _ _ h in
    let of_amount = append-eq-nil _ _ of_status.1 in
    let of_address = append-eq-nil _ _ of_amount.1 in
    let amount = amount_problems-eq-nil p r.amount of_amount.0 in
    record {
      settled = status_refused-eq-nil p of_status.0;
      amount_given = amount.0;
      amount_positive = amount.1;
      same_asset = amount.2;
      destination_shaped = address_problems-eq-nil r.destination of_address.0;
      token_given = token_problems-eq-nil r.token (append-eq-nil _ _ of_address.1).0;
    }

new_refund_made :
    (p : Payment) (id : Text) (r : RefundRequest) (now : ℕ) (random : Option (List ℕ)) (f : Refund)
    → new_refund (some p) id r now random ≡ ok f
    → (refund_problems p id r ≡ []) × (refund_of p id r now random ≡ ok f)
unfolding new_refund
new_refund_made p id r now random f h = ground arith

refund_of_terms :
    (p : Payment) (id : Text) (r : RefundRequest) (now : ℕ) (random : Option (List ℕ)) (f : Refund)
    → refund_of p id r now random ≡ ok f
    → (f.payment_id ≡ p.id)
      × (f.amount ≡ r.amount)
      × (f.destination ≡ r.destination)
      × (f.status ≡ created)
      × (f.expires_at ≤ now + refund_life)
      × (now + refund_life < f.expires_at + 1000)
unfolding refund_of to_microsecond
refund_of_terms p id r now random f h = ground arith

-- `NewRefund` opens a refund only of a payment that the chain settled, for an amount above zero of the
-- payment's asset, to an address, with a page: the refund is of that payment and that amount, starts
-- as created, and its key dies half an hour from now, to the microsecond.
pub new_refund_terms :
    (p : Payment) (id : Text) (r : RefundRequest) (now : ℕ) (random : Option (List ℕ)) (f : Refund)
    → new_refund (some p) id r now random ≡ ok f
    → IsRefundable p r
      × (f.payment_id ≡ p.id)
      × (f.amount ≡ r.amount)
      × (f.destination ≡ r.destination)
      × (f.status ≡ created)
      × (f.expires_at ≤ now + refund_life)
      × (now + refund_life < f.expires_at + 1000)
new_refund_terms p id r now random f h =
    let (none_found, made) = new_refund_made p id r now random f h in
    let terms = refund_of_terms p id r now random f made in
    (
      refund_problems-IsRefundable p id r none_found,
      terms.0,
      terms.1,
      terms.2,
      terms.3,
      terms.4,
      terms.5,
    )

-- The row of a new refund is one that `RestoreRefund` takes as it is.
pub restore_refund-new :
    (p : Payment) (id : Text) (r : RefundRequest) (now : ℕ) (random : Option (List ℕ)) (f : Refund)
    → new_refund (some p) id r now random ≡ ok f
    → restore_refund f ≡ ok f
unfolding restore_refund problems_of_address
restore_refund-new p id r now random f h =
    let terms = new_refund_terms p id r now random f h in ground arith

-- A call of one of the methods that move a refund.
pub data RefundMove : Type 0 where
  settled overdue ended : RefundMove

unfoldable pub apply_move : RefundMove → Refund → Result Problems Refund
unfolding settle await_finality expire
apply_move settled r = settle r
apply_move overdue r = await_finality r
apply_move ended r = expire r

abbrev left_by : Result Problems Refund → Refund → Refund
left_by (ok r') r = r'
left_by (err e) r = r

unfoldable pub run : Refund → List RefundMove → Refund
run r [] = r
run r (m ∷ ms) = run (left_by (apply_move m r) r) ms

apply_move-final :
    (m : RefundMove) (r : Refund) → final r.status ≡ true → left_by (apply_move m r) r ≡ r
unfolding apply_move final
apply_move-final m r h = ground arith

-- A refund that ended stays as it ended, whatever is called on it: one that the chain settled never
-- expires, and one that expired is never called settled.
pub run_refund-final : (r : Refund) (ms : List RefundMove) → final r.status ≡ true → run r ms ≡ r
unfolding run
run_refund-final r [] h = refl
run_refund-final r (m ∷ ms) h = rw (apply_move-final m r h) (run_refund-final r ms h)
