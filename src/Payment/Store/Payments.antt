-- ===== src/Payment/Store/Payments.antt =====
-- internal/payment/postgres.go: payments as rows, and the constraints of their table.
use sucopay.Prelude.{
  ℕ, ◌+◌, Bool, not, ◌&&◌, ◌||◌, List, [], ◌∷◌, ◌++◌, Option, none, some, ltb, leb, ◌==◌,
  if◌then◌else◌, is_empty, any, Result, ok, err, ◌>>=◌, ◌>>◌, map_err,
}
use sucopay.Text.{Text, text_eq, codes}
use sucopay.Payment.Money
use sucopay.Payment.Money.{Money, MoneyError, zero_money}
use sucopay.Payment.Status.{succeeded, status_eq, valid, final}
use sucopay.Payment.Aggregate.{Payment, Stored, Idempotency, Checkout, restore}
use sucopay.Payment.Store.{
  Revision, Event, PaymentRow, Database, StoreError, not_found, stale, idempotency_key_used,
  nothing_given, half_key, constraint, problems, refuse_if, write_outbox, check_event,
}

-- `account_id = $1 and id = $2`
unfoldable pub is_payment : Text → Text → PaymentRow → Bool
is_payment account id row = text_eq row.account account && text_eq row.stored.id id

-- The row that a query by the primary key answers.
unfoldable pub payment_row : Text → Text → List PaymentRow → Option PaymentRow
unfolding is_payment
payment_row account id [] = none
payment_row account id (row ∷ rows) =
    let rest = payment_row account id rows in if is_payment account id row then some row else rest

-- `find`
unfoldable pub find : Text → Text → Database → Result StoreError (Payment × Revision)
unfolding payment_row
find account id d = elim (payment_row account id d.payments) [
  | none ↦ err not_found
  | some row ↦ do
    p ← map_err problems (restore row.stored)
    ok (p, record { id = row.stored.id; at = row.version })
]

-- The identifier of the row with an idempotency key.
unfoldable pub id_by_key : Text → Text → List PaymentRow → Option Text
id_by_key account key [] = none
id_by_key account key (row ∷ rows) =
    let rest = id_by_key account key rows in
    if text_eq row.account account
      && (not (is_empty row.stored.idempotency.key) && text_eq row.stored.idempotency.key key)
    then some row.stored.id
    else rest

-- `FindByKey`
unfoldable pub find_by_key : Text → Text → Database → Result StoreError (Payment × Revision)
unfolding id_by_key find
find_by_key account key d = elim (id_by_key account key d.payments) [
  | none ↦ err not_found
  | some id ↦ find account id d
]

-- The checks that every row of payments passes.
unfoldable pub payment_checks : Stored → Result StoreError (Unit {0})
unfolding Money.is_set Money.amount_of status_eq valid
payment_checks s =
    if not (ltb s.created_at s.expires_at)
    then err (constraint (codes "payments_expires_after_creation"))
    else if not (valid s.status)
    then err (constraint (codes "payments_status_is_one_of_the_lifecycle"))
    else if status_eq s.status succeeded
        && not
            (Money.is_set s.received && leb (Money.amount_of s.amount) (Money.amount_of s.received))
    then err (constraint (codes "payments_succeeded_only_when_covered"))
    else ok tt

unfoldable pub same_idempotency : Idempotency → Idempotency → Bool
same_idempotency i j = not (is_empty j.key) && text_eq i.key j.key

unfoldable pub same_checkout : Checkout → Checkout → Bool
same_checkout c c' = not (is_empty c'.hash) && text_eq c.hash c'.hash

-- `insert into payments`, with the unique indexes in the order that they were created in.
unfoldable pub insert_payment : Text → Stored → Database → Result StoreError Database
unfolding is_payment payment_checks same_idempotency same_checkout
insert_payment account s d = do
  payment_checks s
  refuse_if (any (is_payment account s.id) d.payments) (constraint (codes "payments_pkey"))
  refuse_if (any (λ row. same_checkout row.stored.checkout s.checkout) d.payments)
      (constraint (codes "payments_by_checkout_hash"))
  refuse_if
      (any
        (λ row.
          text_eq row.account account && same_idempotency row.stored.idempotency s.idempotency)
        d.payments)
      idempotency_key_used
  ok (record d {
    payments = d.payments ++ record { account = account; stored = s; version = 1 } ∷ [];
  })

-- The columns that `Create` writes: nothing has been received and nothing is closed.
unfoldable pub created_columns : Payment → Stored
created_columns p = record {
  id = p.id;
  amount = p.amount;
  received = zero_money;
  destination = p.destination;
  metadata = p.metadata;
  status = p.status;
  created_at = p.created_at;
  expires_at = p.expires_at;
  return_url = p.return_url;
  checkout = if is_empty p.checkout.hash then record { hash = []; key_id = [] } else p.checkout;
  idempotency = p.idempotency;
  closed_at = 0;
}

-- `Create`
unfoldable pub create : Text → Payment → Database → Result StoreError Database
unfolding insert_payment created_columns
create account p d =
    if not (is_empty p.idempotency.key) && is_empty p.idempotency.body_hash
      || is_empty p.idempotency.key && not (is_empty p.idempotency.body_hash)
    then err half_key
    else insert_payment account (created_columns p) d

-- The columns that `savePayment` sets, with the database's clock.
unfoldable pub saved_columns : ℕ → Payment → Stored → Stored
unfolding Money.is_set Money.amount_of final
saved_columns clock p s = record s {
  status = p.status;
  received =
      if Money.is_set p.received
      then record { amount = some (Money.amount_of p.received); asset = s.amount.asset }
      else zero_money;
  closed_at = if not (s.closed_at == 0) then s.closed_at else if final p.status then clock else 0;
}

-- `update payments ... where account_id = $1 and id = $2 and version = $3`, and the row that it met.
unfoldable pub update_payment :
    ℕ → Text → Payment → ℕ → List PaymentRow → Option (Stored × List PaymentRow)
unfolding is_payment saved_columns
update_payment clock account p at [] = none
update_payment clock account p at (row ∷ rows) =
    let rest = update_payment clock account p at rows in
    if is_payment account p.id row && row.version == at
    then (let s = saved_columns clock p row.stored in
        some (s, record row { stored = s; version = row.version + 1 } ∷ rows))
    else elim rest [ none ↦ none | some (s, rows') ↦ some (s, row ∷ rows') ]

-- `savePayment`
unfoldable pub save_payment : ℕ → Text → Payment → Revision → Database → Result StoreError Database
unfolding update_payment payment_checks
save_payment clock account p at d = elim (update_payment clock account p at.at d.payments) [
  | none ↦ err stale
  | some (s, rows) ↦ payment_checks s >> ok (record d { payments = rows })
]

-- `Save`
unfoldable pub save :
    ℕ → Text → Option Payment → Revision → Event → Database → Result StoreError Database
unfolding check_event save_payment write_outbox
save clock account none at e d = err nothing_given
save clock account (some p) at e d = do
  check_event e
  refuse_if (not (text_eq at.id p.id)) stale
  d' ← save_payment clock account p at d
  if is_empty e.name then ok d' else write_outbox account p.id e d'
