-- ===== src/Payment/Store/Observations.antt =====
-- internal/payment/postgres.go: what the observer saw of a chain, as rows. What PostgreSQL reads of a
-- text that goes to numeric(78, 0) is the parameter `numeric`, with nothing for what it refuses.
use sucopay.Prelude.{
  ℕ, Bool, true, false, not, ◌&&◌, ◌||◌, List, [], ◌∷◌, Option, none, some, ltb, if◌then◌else◌, any,
  Result, ok, err, ◌>>=◌, ◌>>◌, map_err,
}
use sucopay.Text.{Text, text_eq, codes}
use sucopay.Payment.Aggregate.{Payment}
use sucopay.Payment.Attempt.{Attempt}
use sucopay.Payment.Refund.{Refund}
use sucopay.Payment.Evidence.{Transfer, Reason, matched, short, vanished, screen}
use sucopay.Payment.Store.{
  Database, ObservationRow, Revision, StoreError, screened, too_high, not_numeric, constraint,
  refuse_if,
}
use sucopay.Payment.Store.Attempts.{is_of}
use sucopay.Payment.Store.Refunds.{is_refund}

-- `Hit`
pub record Hit : Type 0 where
  pub account : Text
  pub attempt : Attempt
  pub attempt_at : Revision
  pub payment : Payment
  pub payment_at : Revision

-- `Seen`
pub record Seen : Type 0 where
  pub hit : Hit
  pub transfer : Transfer
  pub reason : Reason
  pub implementation : Text

-- `RefundHit`
pub record RefundHit : Type 0 where
  pub account : Text
  pub refund : Refund
  pub refund_at : Revision
  pub payment : Payment
  pub payment_at : Revision

-- `SeenRefund`
pub record SeenRefund : Type 0 where
  pub hit : RefundHit
  pub transfer : Transfer
  pub reason : Reason
  pub implementation : Text

-- `observation`
pub record Observation : Type 0 where
  pub account : Text
  pub payment : Text
  pub attempt : Option Text
  pub refund : Option Text
  pub transfer : Transfer
  pub reason : Reason
  pub implementation : Text

-- `seenAgainstAttempt`
unfoldable pub seen_against_attempt : Seen → Observation
seen_against_attempt one = record {
  account = one.hit.account;
  payment = one.hit.payment.id;
  attempt = some one.hit.attempt.id;
  refund = none;
  transfer = one.transfer;
  reason = one.reason;
  implementation = one.implementation;
}

-- `seenAgainstRefund`
unfoldable pub seen_against_refund : SeenRefund → Observation
seen_against_refund one = record {
  account = one.hit.account;
  payment = one.hit.refund.payment_id;
  attempt = none;
  refund = some one.hit.refund.id;
  transfer = one.transfer;
  reason = one.reason;
  implementation = one.implementation;
}

-- `reason = 'matched'`, `reason = any('matched', 'short')`, and `reason = 'vanished'`.
unfoldable pub is_matched : Reason → Bool
is_matched matched = true
is_matched _ = false

unfoldable pub stands : Reason → Bool
stands matched = true
stands short = true
stands _ = false

unfoldable pub is_vanished : Reason → Bool
is_vanished vanished = true
is_vanished _ = false

-- `math.MaxInt64`, and the largest that an integer column holds.
abbrev pub max_int64 : ℕ
max_int64 = 9_223_372_036_854_775_807

abbrev pub max_int32 : ℕ
max_int32 = 2_147_483_647

-- `blockHeight`
unfoldable pub block_height : Transfer → Result StoreError ℕ
block_height t =
    if ltb max_int64 t.block_height then err (too_high t.block_height) else ok t.block_height

-- `span`
unfoldable pub span : ℕ → ℕ → Result StoreError (ℕ × ℕ)
span first last =
    if ltb max_int64 first || ltb max_int64 last then err (too_high last) else ok (first, last)

-- `network = $1 and key = $2 and tx = $3`
unfoldable pub is_observed : Text → Text → Text → ObservationRow → Bool
is_observed network key tx row =
    text_eq row.network network && (text_eq row.key key && text_eq row.tx tx)

-- The row that `recordOne` inserts.
unfoldable pub inserted : Text → Observation → ℕ → ℕ → Bool → ℕ → ObservationRow
inserted network o height value final now = record {
  account = o.account;
  payment = o.payment;
  attempt = o.attempt;
  refund = o.refund;
  network = network;
  key = o.transfer.key;
  tx = o.transfer.tx;
  position = o.transfer.position;
  block_height = height;
  block_hash = o.transfer.block_hash;
  block_time = o.transfer.block_time;
  asset = o.transfer.asset;
  authorizer = o.transfer.authorizer;
  sender = o.transfer.from;
  recipient = o.transfer.to;
  value = value;
  reason = o.reason;
  implementation = o.implementation;
  seen_at = now;
  final_at = if final then some now else none;
  disagreed_at = none;
}

-- `coalesce(a, b)`
unfoldable pub coalesce : Option ℕ → Option ℕ → Option ℕ
coalesce (some a) b = some a
coalesce none b = b

-- What `on conflict do update` leaves of the row that is there, with the one that was to be inserted.
unfoldable pub rewritten : ObservationRow → ObservationRow → ObservationRow
unfolding coalesce
rewritten row new = record new {
  account = row.account;
  payment = row.payment;
  attempt = row.attempt;
  refund = row.refund;
  final_at = coalesce row.final_at new.final_at;
  disagreed_at = row.disagreed_at;
}

-- `insert ... on conflict (network, key, tx) do update`
unfoldable pub upsert : ObservationRow → List ObservationRow → List ObservationRow
unfolding is_observed rewritten
upsert new [] = new ∷ []
upsert new (row ∷ rows) =
    let rest = upsert new rows in
    if is_observed new.network new.key new.tx row then rewritten row new ∷ rows else row ∷ rest

-- Whether what a new row stands against is there: the foreign keys of the table.
unfoldable pub stands_against : ObservationRow → Database → Bool
unfolding is_of is_refund
stands_against row d =
    elim row.attempt [
      | none ↦ true
      | some id ↦ any (λ a. is_of row.account row.payment a && text_eq a.attempt.id id) d.attempts
    ]
    && elim row.refund [
      | none ↦ true
      | some id ↦ any (is_refund row.account row.payment id) d.refunds
    ]

unfoldable pub is_recorded : ObservationRow → Database → Bool
unfolding is_observed
is_recorded new d = any (is_observed new.network new.key new.tx) d.observations

-- The statement of `recordOne`, with the table's constraints.
unfoldable pub put_observation : ObservationRow → Database → Result StoreError Database
unfolding upsert stands_against is_recorded
put_observation new d = do
  refuse_if (ltb max_int32 new.position) (constraint (codes "integer"))
  refuse_if (not (is_recorded new d) && not (stands_against new d))
      (constraint (codes "observations_fkey"))
  ok (record d { observations = upsert new d.observations })

read_value : Option ℕ → Text → Result StoreError ℕ
read_value none text = err (not_numeric text)
read_value (some v) text = ok v

-- `recordOne`
unfoldable pub record_one :
    (Text → Option ℕ) → Text → Observation → Bool → ℕ → Database → Result StoreError Database
unfolding screen block_height inserted put_observation read_value
record_one numeric network o final now d = do
  map_err screened (screen o.transfer)
  height ← block_height o.transfer
  value ← read_value (numeric o.transfer.value) o.transfer.value
  put_observation (inserted network o height value final now) d

-- `disagreed_at` of the rows of one key.
unfoldable pub mark :
    (ObservationRow → Bool)
    → (ObservationRow → ObservationRow)
    → List ObservationRow
    → List ObservationRow
mark test change [] = []
mark test change (row ∷ rows) = (if test row then change row else row) ∷ mark test change rows

-- `Disagree`
unfoldable pub disagree : Text → Text → Text → ℕ → Database → Database
unfolding mark is_observed coalesce
disagree network key tx now d = record d {
  observations =
      mark (is_observed network key tx)
        (λ row. record row { disagreed_at = coalesce row.disagreed_at (some now) }) d.observations;
}

-- `Agree`
unfoldable pub agree : Text → Text → Text → Database → Database
unfolding mark is_observed
agree network key tx d = record d {
  observations =
      mark (is_observed network key tx) (λ row. record row { disagreed_at = none }) d.observations;
}
