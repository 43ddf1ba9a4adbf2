-- ===== src/Payment/Store/Transfers.antt =====
-- internal/payment/postgres.go: the transfer that an event and a page show. The scheme is no column,
-- so that it comes back empty.
use sucopay.Prelude.{
  Bool, false, not, ◌&&◌, ◌||◌, List, [], ◌∷◌, Option, none, some, ltb, leb, ◌==◌, is_some, keep,
  sort_by,
}
use sucopay.Text.{Text, text_eq, text_leb}
use sucopay.Text.Decimal.{print}
use sucopay.Payment.Evidence.{Transfer}
use sucopay.Payment.Store.{Database, ObservationRow}
use sucopay.Payment.Store.Observations.{is_matched}

-- The columns of a transfer, as they are scanned.
unfoldable pub transfer_of : ObservationRow → Transfer
unfolding print
transfer_of row = record {
  scheme = [];
  asset = row.asset;
  key = row.key;
  authorizer = row.authorizer;
  from = row.sender;
  to = row.recipient;
  value = print row.value;
  tx = row.tx;
  position = row.position;
  block_height = row.block_height;
  block_hash = row.block_hash;
  block_time = row.block_time;
}

-- `limit 1`
unfoldable pub first_of : List ObservationRow → Option Transfer
unfolding transfer_of
first_of [] = none
first_of (row ∷ rows) = some (transfer_of row)

-- `order by block_height, tx, position`
unfoldable pub carried_before : ObservationRow → ObservationRow → Bool
unfolding text_eq text_leb
carried_before x y =
    ltb x.block_height y.block_height
    || x.block_height == y.block_height
      && (text_leb x.tx y.tx && (not (text_eq x.tx y.tx) || leb x.position y.position))

unfoldable pub pays_for : Text → Text → ObservationRow → Bool
unfolding is_matched
pays_for account payment row =
    text_eq row.account account
    && (text_eq row.payment payment && (is_matched row.reason && is_some row.attempt))

-- `MatchedTransfer`
unfoldable pub matched_transfer : Text → Text → Database → Option Transfer
unfolding pays_for carried_before first_of
matched_transfer account payment d =
    first_of (sort_by carried_before (keep (pays_for account payment) d.observations))

unfoldable pub sends_back : Text → Text → Text → ObservationRow → Bool
unfolding is_matched
sends_back account payment id row =
    text_eq row.account account
    && (text_eq row.payment payment
        && (elim row.refund [ none ↦ false | some r ↦ text_eq r id ] && is_matched row.reason))

-- `RefundTransfer`, the one that was seen last
unfoldable pub refund_transfer : Text → Text → Text → Database → Option Transfer
unfolding sends_back first_of
refund_transfer account payment id d =
    first_of (
      sort_by (λ x y. leb y.seen_at x.seen_at)
        (keep (sends_back account payment id) d.observations))
