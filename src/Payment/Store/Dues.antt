-- ===== src/Payment/Store/Dues.antt =====
-- internal/payment/postgres.go: the payments and the refunds that the clock has passed by, the refunds
-- that a transfer would settle, and what is still open.
use sucopay.Prelude.{
  ℕ, Bool, true, false, not, ◌&&◌, ◌||◌, List, Option, none, some, ltb, leb, ◌==◌, is_some, any,
  keep, sort_by, take, length, Result, ok, ◌>>=◌, map_ok,
}
use sucopay.Text.{Text, text_eq, text_leb}
use sucopay.Payment.Status.{awaiting_payment, awaiting_finality, status_eq}
use sucopay.Payment.RefundStatus.{RefundStatus, refund_status_eq}
use sucopay.Payment.Aggregate.{Payment}
use sucopay.Payment.Refund.{Refund}
use sucopay.Payment.Store.{Database, PaymentRow, RefundRow, ObservationRow, Revision, StoreError}
use sucopay.Payment.Store.Payments.{payment_row}
use sucopay.Payment.Store.Refunds.{refund_row}
use sucopay.Payment.Store.Observations.{is_matched, is_vanished}
use sucopay.Payment.Store.Queries.{read_payment, read_refund, Place, settles, page, join, is_open}
use sucopay.Observe.Cursor.{Row, row_of}

-- `Open`
unfoldable pub open_payments : Text → Database → ℕ
unfolding is_open
open_payments network d = length (
    keep
      (λ (row : PaymentRow).
        text_eq row.stored.amount.asset.network network && is_open row.stored.status)
      d.payments)

-- `status = any('created', 'awaiting_finality')`
unfoldable pub is_open_refund : RefundStatus → Bool
unfolding refund_status_eq
is_open_refund s =
    refund_status_eq s RefundStatus.created || refund_status_eq s RefundStatus.awaiting_finality

-- `OpenRefunds`
unfoldable pub open_refunds : Text → Database → ℕ
unfolding is_open_refund
open_refunds network d = length (
    keep
      (λ (row : RefundRow). text_eq row.refund.network network && is_open_refund row.refund.status)
      d.refunds)

-- `Due`
pub record Due : Type 0 where
  pub account : Text
  pub payment : Payment
  pub payment_at : Revision

-- `scanDue`
unfoldable pub due_of : PaymentRow → Result StoreError Due
unfolding read_payment
due_of row = do
  (p, at) ← read_payment row
  ok (record { account = row.account; payment = p; payment_at = at })

-- `order by p.expires_at, p.id`
unfoldable pub due_before : PaymentRow → PaymentRow → Bool
unfolding text_leb
due_before x y =
    ltb x.stored.expires_at y.stored.expires_at
    || x.stored.expires_at == y.stored.expires_at && text_leb x.stored.id y.stored.id

unfoldable pub is_overdue : Text → ℕ → PaymentRow → Bool
unfolding status_eq
is_overdue network at row =
    text_eq row.stored.amount.asset.network network
    && (status_eq row.stored.status awaiting_payment && leb row.stored.expires_at at)

-- `Overdue`
unfoldable pub overdue : Text → ℕ → ℕ → Database → Result StoreError (List Due)
unfolding due_of due_before is_overdue
overdue network at limit d =
    map_ok due_of (take limit (sort_by due_before (keep (is_overdue network at) d.payments)))

-- `c.block_time is not null and c.block_time >= $1`
unfoldable pub is_past : List Row → Text → ℕ → Bool
unfolding row_of
is_past cursors network deadline = elim (row_of network cursors) [
  | none ↦ false
  | some c ↦ not (c.position.time == 0) && leb deadline c.position.time
]

-- A transfer that may yet pay a payment.
unfoldable pub may_pay : Text → Text → ObservationRow → Bool
unfolding is_matched
may_pay account payment o =
    text_eq o.account account && (text_eq o.payment payment && is_matched o.reason)

unfoldable pub is_unsettled : List Row → Text → Database → PaymentRow → Bool
unfolding status_eq is_past may_pay
is_unsettled cursors network d row =
    text_eq row.stored.amount.asset.network network
    && (status_eq row.stored.status awaiting_finality
        && (is_past cursors network row.stored.expires_at
            && not (any (may_pay row.account row.stored.id) d.observations)))

-- `Unsettled`
unfoldable pub unsettled : List Row → Text → ℕ → Database → Result StoreError (List Due)
unfolding due_of due_before is_unsettled
unsettled cursors network limit d =
    map_ok due_of
      (take limit (sort_by due_before (keep (is_unsettled cursors network d) d.payments)))

-- `RefundCandidate`
pub record RefundCandidate : Type 0 where
  pub account : Text
  pub refund : Refund
  pub refund_at : Revision
  pub key : Text
  pub tx : Text
  pub block_height : ℕ
  pub block_hash : Text

unfoldable pub refund_candidate_of : ObservationRow × RefundRow → Result StoreError RefundCandidate
unfolding read_refund
refund_candidate_of (o, row) = do
  (r, at) ← read_refund row
  ok (record {
    account = row.account;
    refund = r;
    refund_at = at;
    key = o.key;
    tx = o.tx;
    block_height = o.block_height;
    block_hash = o.block_hash;
  })

-- The refund that an observation is joined with, if it is open and its payment is there.
unfoldable pub returned_by : Database → ObservationRow → Option RefundRow
unfolding payment_row refund_row is_open_refund
returned_by d o = elim o.refund [
  | none ↦ none
  | some id ↦ elim (refund_row o.account o.payment id d.refunds) [
    | none ↦ none
    | some row ↦
        elim (is_open_refund row.refund.status
          && is_some (payment_row o.account o.payment d.payments)) [
            | true ↦ some row
            | false ↦ none
          ]
  ]
]

-- `RefundCandidates`
unfoldable pub refund_candidates :
    Text → Place → ℕ → Database → Result StoreError (List RefundCandidate)
unfolding refund_candidate_of settles returned_by join page
refund_candidates network from limit d =
    map_ok refund_candidate_of
      (page from limit (join (returned_by d) (keep (settles network) d.observations)))

-- `RefundDue`
pub record RefundDue : Type 0 where
  pub account : Text
  pub refund : Refund
  pub refund_at : Revision

-- `scanRefundDue`
unfoldable pub refund_due_of : RefundRow × PaymentRow → Result StoreError RefundDue
unfolding read_refund
refund_due_of (row, paid) = do
  (r, at) ← read_refund row
  ok (record { account = row.account; refund = r; refund_at = at })

-- The payment that a refund is joined with.
unfoldable pub refunded_payment : Database → RefundRow → Option PaymentRow
unfolding payment_row
refunded_payment d row = payment_row row.account row.refund.payment_id d.payments

unfoldable pub refund_due_before : RefundRow × PaymentRow → RefundRow × PaymentRow → Bool
unfolding text_leb
refund_due_before (x, p) (y, q) =
    ltb x.refund.expires_at y.refund.expires_at
    || x.refund.expires_at == y.refund.expires_at && text_leb x.refund.id y.refund.id

unfoldable pub is_overdue_refund : Text → ℕ → RefundRow → Bool
unfolding refund_status_eq
is_overdue_refund network at row =
    text_eq row.refund.network network
    && (refund_status_eq row.refund.status RefundStatus.created && leb row.refund.expires_at at)

-- `OverdueRefunds`
unfoldable pub overdue_refunds : Text → ℕ → ℕ → Database → Result StoreError (List RefundDue)
unfolding refund_due_of join refunded_payment refund_due_before is_overdue_refund
overdue_refunds network at limit d = map_ok refund_due_of (
    take limit (
      sort_by refund_due_before
        (join (refunded_payment d) (keep (is_overdue_refund network at) d.refunds))))

-- A transfer of a refund's key out of the wallet that the payment went to.
unfoldable pub has_left : RefundRow → PaymentRow → ObservationRow → Bool
unfolding is_vanished
has_left row paid o =
    text_eq o.account row.account
    && (text_eq o.payment row.refund.payment_id
        && (elim o.refund [ none ↦ false | some id ↦ text_eq id row.refund.id ]
            && (not (is_vanished o.reason) && text_eq o.sender paid.stored.destination)))

unfoldable pub is_unsettled_refund : List Row → Text → Database → RefundRow × PaymentRow → Bool
unfolding refund_status_eq is_past has_left
is_unsettled_refund cursors network d (row, paid) =
    text_eq row.refund.network network
    && (refund_status_eq row.refund.status RefundStatus.awaiting_finality
        && (is_past cursors row.refund.network row.refund.expires_at
            && not (any (has_left row paid) d.observations)))

-- `UnsettledRefunds`
unfoldable pub unsettled_refunds :
    List Row → Text → ℕ → Database → Result StoreError (List RefundDue)
unfolding refund_due_of join refunded_payment refund_due_before is_unsettled_refund
unsettled_refunds cursors network limit d = map_ok refund_due_of (
    take limit (
      sort_by refund_due_before
        (keep (is_unsettled_refund cursors network d) (join (refunded_payment d) d.refunds))))
