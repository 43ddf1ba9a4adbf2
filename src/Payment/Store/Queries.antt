-- ===== src/Payment/Store/Queries.antt =====
-- internal/payment/postgres.go: what a round of the observer and of the worker reads. The rows of
-- observation_cursors are an argument, and texts are ordered by their bytes.
use sucopay.Prelude.{
  ℕ, Bool, true, false, not, ◌&&◌, ◌||◌, List, [], ◌∷◌, Option, none, some, ltb, ◌==◌, is_some, any,
  keep, sort_by, take, length, Result, ok, ◌>>=◌, map_err, map_ok,
}
use sucopay.Text.{Text, text_eq, text_leb}
use sucopay.Payment.Status.{Status, awaiting_payment, awaiting_finality, status_eq}
use sucopay.Payment.Aggregate.{Payment, Stored, restore}
use sucopay.Payment.Attempt.{restore_attempt}
use sucopay.Payment.Refund.{Refund, restore_refund}
use sucopay.Payment.Store.{
  Database, PaymentRow, AttemptRow, RefundRow, ObservationRow, Revision, StoreError, problems,
  bad_attempt,
}
use sucopay.Payment.Store.Payments.{payment_row}
use sucopay.Payment.Store.Observations.{Hit, RefundHit, is_matched}

-- `payer.payment`, over the columns that these queries read.
unfoldable pub read_columns : Stored → Stored
read_columns s = record s {
  return_url = [];
  checkout = record { hash = []; key_id = [] };
  idempotency = record { key = []; body_hash = [] };
  closed_at = 0;
}

unfoldable pub read_payment : PaymentRow → Result StoreError (Payment × Revision)
unfolding read_columns
read_payment row = do
  p ← map_err problems (restore (read_columns row.stored))
  ok (p, record { id = row.stored.id; at = row.version })

-- `refunder.refund`
unfoldable pub read_refund : RefundRow → Result StoreError (Refund × Revision)
read_refund row = do
  r ← map_err problems (restore_refund row.refund)
  ok (r, record { id = row.refund.id; at = row.version })

-- `join`, by a function to the row that is joined; a row with none is left out.
unfoldable pub join {ℓ κ} : {A : Type ℓ} {B : Type κ} → (A → Option B) → List A → List (A × B)
join f [] = []
join f (x ∷ xs) = let rest = join f xs in elim (f x) [ none ↦ rest | some y ↦ (x, y) ∷ rest ]

-- `Consumed`
unfoldable pub hit_of : AttemptRow × PaymentRow → Result StoreError Hit
unfolding read_payment
hit_of (row, paid) = do
  a ← map_err bad_attempt (restore_attempt row.attempt)
  (p, at) ← read_payment paid
  ok (record {
    account = row.account;
    attempt = a;
    attempt_at = record { id = row.attempt.id; at = row.revision };
    payment = p;
    payment_at = at;
  })

unfoldable pub consumed : Text → List Text → Database → Result StoreError (List Hit)
unfolding hit_of join payment_row
consumed network keys d = map_ok hit_of (
    join (λ (row : AttemptRow). payment_row row.account row.attempt.payment_id d.payments)
      (keep
        (λ (row : AttemptRow).
          text_eq row.attempt.network network && any (λ k. text_eq row.attempt.key k) keys)
        d.attempts))

-- `RefundsConsumed`
unfoldable pub refund_hit_of : RefundRow × PaymentRow → Result StoreError RefundHit
unfolding read_payment read_refund
refund_hit_of (row, paid) = do
  (p, at) ← read_payment paid
  (r, refund_at) ← read_refund row
  ok (record {
    account = row.account;
    refund = r;
    refund_at = refund_at;
    payment = p;
    payment_at = at;
  })

unfoldable pub refunds_consumed : Text → List Text → Database → Result StoreError (List RefundHit)
unfolding refund_hit_of join payment_row
refunds_consumed network keys d = map_ok refund_hit_of (
    join (λ (row : RefundRow). payment_row row.account row.refund.payment_id d.payments)
      (keep
        (λ (row : RefundRow).
          text_eq row.refund.network network && any (λ k. text_eq row.refund.key k) keys)
        d.refunds))

-- `Place`
pub record Place : Type 0 where
  pub block_height : ℕ
  pub tx : Text

abbrev pub no_place : Place
no_place = record { block_height = 0; tx = [] }

-- `(o.block_height, o.tx) > ($4, $5)`, and `order by o.block_height, o.tx`
unfoldable pub is_after : Place → ObservationRow → Bool
unfolding text_leb
is_after from row =
    ltb from.block_height row.block_height
    || from.block_height == row.block_height && not (text_leb row.tx from.tx)

unfoldable pub by_place : ObservationRow → ObservationRow → Bool
unfolding is_after
by_place x y = not (is_after (record { block_height = y.block_height; tx = y.tx }) x)

-- `status = any('awaiting_payment', 'awaiting_finality')`
unfoldable pub is_open : Status → Bool
unfolding status_eq
is_open s = status_eq s awaiting_payment || status_eq s awaiting_finality

-- Matched, and seen in the finalised range.
unfoldable pub settles : Text → ObservationRow → Bool
unfolding is_matched
settles network row = text_eq row.network network && (is_matched row.reason && is_some row.final_at)

-- The payment that an observation is joined with, if it is open.
unfoldable pub paid_by : Database → ObservationRow → Option PaymentRow
unfolding payment_row is_open
paid_by d o = elim (payment_row o.account o.payment d.payments) [
  | none ↦ none
  | some row ↦ elim (is_open row.stored.status) [ true ↦ some row | false ↦ none ]
]

-- `Candidate`
pub record Candidate : Type 0 where
  pub account : Text
  pub payment : Payment
  pub payment_at : Revision
  pub key : Text
  pub tx : Text
  pub block_height : ℕ
  pub block_hash : Text

unfoldable pub candidate_of : ObservationRow × PaymentRow → Result StoreError Candidate
unfolding read_payment
candidate_of (o, row) = do
  (p, at) ← read_payment row
  ok (record {
    account = o.account;
    payment = p;
    payment_at = at;
    key = o.key;
    tx = o.tx;
    block_height = o.block_height;
    block_hash = o.block_hash;
  })

-- The rows from after a place, in order, and at most a number of them.
unfoldable pub page {ℓ} :
    {A : Type ℓ} → Place → ℕ → List (ObservationRow × A) → List (ObservationRow × A)
unfolding is_after by_place
page from limit rows =
    take limit (sort_by (λ x y. by_place x.0 y.0) (keep (λ x. is_after from x.0) rows))

-- The rows that `Candidates` reads and `Undecided` counts.
unfoldable pub undecided_rows : Text → Database → List (ObservationRow × PaymentRow)
unfolding settles paid_by join
undecided_rows network d = join (paid_by d) (keep (settles network) d.observations)

-- `Candidates`
unfoldable pub candidates : Text → Place → ℕ → Database → Result StoreError (List Candidate)
unfolding candidate_of page undecided_rows
candidates network from limit d = map_ok candidate_of (page from limit (undecided_rows network d))

-- `Undecided`
unfoldable pub undecided : Text → Database → ℕ
unfolding undecided_rows
undecided network d = length (undecided_rows network d)

-- `Disagreeing`
unfoldable pub disagreeing : Text → Database → ℕ
unfolding undecided_rows
disagreeing network d = length (
    keep (λ (x : ObservationRow × PaymentRow). is_some x.0.disagreed_at) (undecided_rows network d))
