-- ===== src/Payment/Store/Refunds.antt =====
-- internal/payment/postgres.go: refunds as rows, and the ceiling that a new one is measured against.
use sucopay.Prelude.{
  ℕ, suc, ◌+◌, ◌-◌, Bool, true, not, ◌&&◌, List, [], ◌∷◌, ◌++◌, Option, none, some, ltb, ◌==◌,
  if◌then◌else◌, is_empty, any, Result, ok, err, ◌>>=◌, ◌>>◌, map_err,
}
use sucopay.Text.{Text, text_eq, codes}
use sucopay.Text.Decimal.{Signed, plus, minus, set_string, print}
use sucopay.Payment.Money
use sucopay.Payment.Money.{Money, ℤ, pos, negsuc, new_money}
use sucopay.Payment.Status.{succeeded, status_eq}
use sucopay.Payment.RefundStatus
use sucopay.Payment.RefundStatus.{refund_status_eq, final}
use sucopay.Payment.Problem.{one, not_succeeded, nothing_to_refund, more_than_left}
use sucopay.Payment.Aggregate.{Idempotency}
use sucopay.Payment.Refund.{Refund, restore_refund}
use sucopay.Payment.Store.{
  Database, PaymentRow, RefundRow, Revision, Event, StoreError, not_found, stale,
  idempotency_key_used, key_taken, nothing_given, constraint, not_a_number, problems, money,
  refuse_if, write_outbox,
}
use sucopay.Payment.Store.Payments.{payment_row}

-- What a number read with `SetString` stands for, and the difference of two.
as_int : Signed → ℤ
as_int (plus n) = pos n
as_int (minus n) = if n == 0 then pos 0 else negsuc (n - 1)

sub_naturals : ℕ → ℕ → ℤ
sub_naturals m n = if ltb m n then negsuc (n - m - 1) else pos (m - n)

unfoldable pub sub : ℤ → ℤ → ℤ
unfolding sub_naturals
sub (pos m) (pos n) = sub_naturals m n
sub (pos m) (negsuc n) = pos (m + suc n)
sub (negsuc m) (pos n) = negsuc (m + n)
sub (negsuc m) (negsuc n) = sub_naturals (suc n) (suc m)

read_number : Text → Result StoreError ℤ
unfolding as_int
read_number s = elim (set_string s) [ none ↦ err (not_a_number s) | some n ↦ ok (as_int n) ]

-- `remaining`
unfoldable pub remaining : Text → Text → Result StoreError ℤ
unfolding read_number sub
remaining arrived held = do
  taken_in ← read_number arrived
  out ← read_number held
  ok (sub taken_in out)

-- The sum of the amounts of a payment's refunds that are not expired.
unfoldable pub held_by : Text → Text → List RefundRow → ℕ
unfolding Money.amount_of refund_status_eq
held_by account payment [] = 0
held_by account payment (row ∷ rows) =
    (if text_eq row.account account
        && (text_eq row.refund.payment_id payment
            && not (refund_status_eq row.refund.status RefundStatus.expired))
      then Money.amount_of row.refund.amount
      else 0)
    + held_by account payment rows

-- `refunded`
unfoldable pub refunded : Text → Text → Database → Text
unfolding held_by print
refunded account payment d = print (held_by account payment d.refunds)

-- `left.Cmp(amount) < 0`, and what is left where that is less than nothing.
unfoldable pub below : ℤ → ℕ → Bool
below (pos n) amount = ltb n amount
below (negsuc n) amount = true

at_least_nothing : ℤ → ℤ
at_least_nothing (pos n) = pos n
at_least_nothing (negsuc n) = pos 0

too_much : Refund → ℤ → StoreError
unfolding at_least_nothing new_money
too_much r left = elim (new_money r.amount.asset (some (at_least_nothing left))) [
  | err e ↦ money e
  | ok rest ↦ problems (one (codes "amount") (more_than_left r.amount rest))
]

unfoldable pub is_refund : Text → Text → Text → RefundRow → Bool
is_refund account payment id row =
    text_eq row.account account
    && (text_eq row.refund.payment_id payment && text_eq row.refund.id id)

unfoldable pub spends_key : Refund → RefundRow → Bool
spends_key r row = text_eq row.refund.network r.network && text_eq row.refund.key r.key

unfoldable pub opened_under : Text → Idempotency → RefundRow → Bool
opened_under account i row =
    not (is_empty i.key)
    && (not (is_empty i.body_hash)
        && (text_eq row.account account && text_eq row.refund.idempotency.key i.key))

unfoldable pub idempotency_columns : Idempotency → Idempotency
idempotency_columns i =
    if not (is_empty i.key) && not (is_empty i.body_hash)
    then i
    else record { key = []; body_hash = [] }

-- `insert into refunds`, with its check first and its unique indexes in the order that they were
-- created in.
unfoldable pub insert_refund : Text → Refund → Database → Result StoreError Database
unfolding is_refund spends_key opened_under idempotency_columns Money.amount_of
insert_refund account r d = do
  refuse_if (Money.amount_of r.amount == 0) (constraint (codes "refunds_amount_is_positive"))
  refuse_if (any (is_refund account r.payment_id r.id) d.refunds)
      (constraint (codes "refunds_pkey"))
  refuse_if (any (spends_key r) d.refunds) key_taken
  refuse_if (any (λ row. text_eq row.refund.token.hash r.token.hash) d.refunds)
      (constraint (codes "refunds_by_token_hash"))
  refuse_if (any (opened_under account r.idempotency) d.refunds) idempotency_key_used
  ok (record d {
    refunds =
        d.refunds
        ++ record {
          account = account;
          refund = record r { idempotency = idempotency_columns r.idempotency; closed_at = 0 };
          version = 1;
        }
          ∷ [];
  })

-- The column `received`, in digits, or null.
unfoldable pub received_column : PaymentRow → Option Text
unfolding Money.is_set Money.amount_of print
received_column row =
    if Money.is_set row.stored.received
    then some (print (Money.amount_of row.stored.received))
    else none

unfoldable pub refund_of_row : Text → Refund → PaymentRow → Database → Result StoreError Database
unfolding received_column refunded remaining below too_much insert_refund status_eq
refund_of_row account r row d =
    if not (status_eq row.stored.status succeeded)
    then err (problems (one (codes "status") (not_succeeded row.stored.status)))
    else elim (received_column row) [
      | none ↦ err (problems (one (codes "status") nothing_to_refund))
      | some arrived ↦ do
        left ← remaining arrived (refunded account r.payment_id d)
        refuse_if (below left (Money.amount_of r.amount)) (too_much r left)
        insert_refund account r d
    ]

-- `CreateRefund`
unfoldable pub create_refund : Text → Option Refund → Database → Result StoreError Database
unfolding payment_row refund_of_row
create_refund account none d = err nothing_given
create_refund account (some r) d = elim (payment_row account r.payment_id d.payments) [
  | none ↦ err not_found
  | some row ↦ refund_of_row account r row d
]

-- The row of a refund.
unfoldable pub refund_row : Text → Text → Text → List RefundRow → Option RefundRow
unfolding is_refund
refund_row account payment id [] = none
refund_row account payment id (row ∷ rows) =
    let rest = refund_row account payment id rows in
    if is_refund account payment id row then some row else rest

-- `FindRefund`
unfoldable pub find_refund : Text → Text → Text → Database → Result StoreError (Refund × Revision)
unfolding refund_row
find_refund account payment id d = elim (refund_row account payment id d.refunds) [
  | none ↦ err not_found
  | some row ↦ do
    r ← map_err problems (restore_refund row.refund)
    ok (r, record { id = row.refund.id; at = row.version })
]

-- Where the refund is that an idempotency key opened.
unfoldable pub refund_by_key : Text → Text → List RefundRow → Option (Text × Text)
refund_by_key account key [] = none
refund_by_key account key (row ∷ rows) =
    let rest = refund_by_key account key rows in
    if text_eq row.account account
      && (not (is_empty row.refund.idempotency.key) && text_eq row.refund.idempotency.key key)
    then some (row.refund.payment_id, row.refund.id)
    else rest

-- `FindRefundByKey`
unfoldable pub find_refund_by_key : Text → Text → Database → Result StoreError (Refund × Revision)
unfolding refund_by_key find_refund
find_refund_by_key account key d = elim (refund_by_key account key d.refunds) [
  | none ↦ err not_found
  | some (payment, id) ↦ find_refund account payment id d
]

-- The row that `update refunds` leaves of one that it meets.
unfoldable pub saved_refund : ℕ → Refund → RefundRow → RefundRow
unfolding final
saved_refund clock r row = record row {
  refund = record row.refund {
    status = r.status;
    closed_at =
        if not (row.refund.closed_at == 0)
        then row.refund.closed_at
        else if final r.status
        then clock
        else 0;
  };
  version = row.version + 1;
}

-- `account_id = $1 and id = $2 and version = $3`
unfoldable pub is_version : Text → Text → ℕ → RefundRow → Bool
is_version account id at row =
    text_eq row.account account && (text_eq row.refund.id id && row.version == at)

unfoldable pub update_refunds : ℕ → Text → Refund → ℕ → List RefundRow → List RefundRow
unfolding is_version saved_refund
update_refunds clock account r at [] = []
update_refunds clock account r at (row ∷ rows) =
    (if is_version account r.id at row then saved_refund clock r row else row)
    ∷ update_refunds clock account r at rows

-- `SaveRefund`
unfoldable pub save_refund :
    ℕ → Text → Option Refund → Revision → Event → Database → Result StoreError Database
unfolding is_version update_refunds
save_refund clock account none at e d = err nothing_given
save_refund clock account (some r) at e d = do
  refuse_if (not (any (is_version account r.id at.at) d.refunds)) stale
  let d' = record d { refunds = update_refunds clock account r at.at d.refunds }
  if is_empty e.name && is_empty e.payload then ok d' else write_outbox account r.payment_id e d'
