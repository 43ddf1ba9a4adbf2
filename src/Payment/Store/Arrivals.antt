-- ===== src/Payment/Store/Arrivals.antt =====
-- internal/payment/postgres.go: what a round of the observer writes, and what a transfer that is no
-- longer on the chain takes back. An event's payload is `told`, the JSON of internal/payment/http.go.
use sucopay.Prelude.{
  ℕ, Bool, true, false, not, ◌&&◌, ◌||◌, List, [], ◌∷◌, ◌++◌, map, Option, none, some, leb,
  if◌then◌else◌, any, Result, ok, err, ◌>>=◌, map_err,
}
use sucopay.Text.{Text, text_eq, codes}
use sucopay.Payment.Money
use sucopay.Payment.Money.{Money, MoneyError}
use sucopay.Payment.Units.{parse_money}
use sucopay.Payment.Aggregate.{Payment}
use sucopay.Payment.Lifecycle.{can_receive, receive, unreceive}
use sucopay.Payment.Attempt.{Attempt, confirm, unconfirm}
use sucopay.Payment.Evidence.{Transfer, vanished}
use sucopay.Payment.Store.{Database, ObservationRow, Event, StoreError, problems, write_outbox}
use sucopay.Payment.Store.Payments.{find, save_payment}
use sucopay.Payment.Store.Attempts.{find_attempt, write_attempt}
use sucopay.Payment.Store.Observations.{
  Hit, Seen, SeenRefund, Observation, is_matched, stands, is_vanished, is_observed, span, mark,
  record_one, seen_against_attempt, seen_against_refund,
}

-- `return nil` where a call returned an error that is left alone.
unfoldable pub unless_refused {ℓ} :
    {E : Type ℓ} {A : Type 0}
    → Result E A
    → (A → Result StoreError Database)
    → Database
    → Result StoreError Database
unless_refused (err e) next d = ok d
unless_refused (ok a) next d = next a

-- `arrived`, past its first test.
unfoldable pub receive_arrival : ℕ → Seen → Database → Result StoreError Database
unfolding find can_receive Money.is_set unless_refused receive save_payment
receive_arrival clock one d = do
  (p, at) ← find one.hit.account one.hit.payment.id d
  if not (can_receive p) || Money.is_set p.received
      then ok d
      else unless_refused (parse_money p.amount.asset one.transfer.value)
          (λ m. map_err problems (receive m p) >>= λ p'. save_payment clock one.hit.account p' at d)
          d

-- `arrived`
unfoldable pub arrived : ℕ → Seen → Database → Result StoreError Database
unfolding stands receive_arrival
arrived clock one d = if not (stands one.reason) then ok d else receive_arrival clock one d

-- `gone`
pub record Lost : Type 0 where
  pub account : Text
  pub payment : Text
  pub attempt : Text

-- The rows that count for an attempt, and for a payment.
unfoldable pub is_for_attempt : Lost → ObservationRow → Bool
unfolding is_matched
is_for_attempt one row =
    text_eq row.account one.account
    && (text_eq row.payment one.payment
        && (elim row.attempt [ none ↦ false | some id ↦ text_eq id one.attempt ]
            && is_matched row.reason))

unfoldable pub is_for_payment : Text → Text → ObservationRow → Bool
unfolding stands
is_for_payment account payment row =
    text_eq row.account account && (text_eq row.payment payment && stands row.reason)

-- `unconfirm`
unfoldable pub take_attempt_back : Lost → Database → Result StoreError Database
unfolding is_for_attempt find_attempt unless_refused unconfirm write_attempt
take_attempt_back one d =
    if any (is_for_attempt one) d.observations
    then ok d
    else find_attempt one.account one.payment one.attempt d >>= λ (a, at).
        unless_refused (unconfirm a) (λ a'. write_attempt one.account a' at.at d) d

-- `unreceive`
unfoldable pub take_arrival_back : ℕ → Lost → Database → Result StoreError Database
unfolding is_for_payment find unless_refused unreceive save_payment
take_arrival_back clock one d =
    if any (is_for_payment one.account one.payment) d.observations
    then ok d
    else find one.account one.payment d >>= λ (p, at).
        unless_refused (unreceive p) (λ p'. save_payment clock one.account p' at d) d

-- `taken`
unfoldable pub taken : ℕ → Lost → Database → Result StoreError Database
unfolding take_attempt_back take_arrival_back
taken clock one d = take_attempt_back one d >>= take_arrival_back clock one

unfoldable pub taken_each : ℕ → List Lost → Database → Result StoreError Database
unfolding taken
taken_each clock [] d = ok d
taken_each clock (one ∷ rest) d = taken clock one d >>= taken_each clock rest

-- `set reason = 'vanished', seen_at = $6`
unfoldable pub vanish_row : ℕ → ObservationRow → ObservationRow
vanish_row now row = record row { reason = vanished; seen_at = now }

unfoldable pub lost_of : ObservationRow → Option Lost
lost_of row = elim row.attempt [
  | none ↦ none
  | some id ↦ some (record { account = row.account; payment = row.payment; attempt = id })
]

-- The rows that are not there any more: recorded in the span, under no transaction of the round.
unfoldable pub is_missing : Text → ℕ → ℕ → List Text → ObservationRow → Bool
unfolding is_vanished
is_missing network low high txs row =
    text_eq row.network network
    && (leb low row.block_height
        && leb row.block_height high
        && (not (any (λ tx. text_eq row.tx tx) txs) && not (is_vanished row.reason)))

-- What `returning` answers of the rows that a test meets, without those against a refund.
unfoldable pub lost_rows : (ObservationRow → Bool) → List ObservationRow → List Lost
unfolding lost_of
lost_rows test [] = []
lost_rows test (row ∷ rows) =
    let rest = lost_rows test rows in
    if test row then (elim (lost_of row) [ none ↦ rest | some one ↦ one ∷ rest ]) else rest

-- `vanish`
unfoldable pub vanish : ℕ → Text → ℕ → ℕ → List Text → ℕ → Database → Result StoreError Database
unfolding span is_missing mark vanish_row lost_rows taken_each
vanish clock network first last txs now d = do
  (low, high) ← span first last
  taken_each clock (lost_rows (is_missing network low high txs) d.observations) (record d {
    observations = mark (is_missing network low high txs) (vanish_row now) d.observations;
  })

-- The row of one key that has not vanished.
unfoldable pub standing_row : Text → Text → Text → List ObservationRow → Option ObservationRow
unfolding is_observed is_vanished
standing_row network key tx [] = none
standing_row network key tx (row ∷ rows) =
    let rest = standing_row network key tx rows in
    if is_observed network key tx row && not (is_vanished row.reason) then some row else rest

-- `Vanish`
unfoldable pub vanish_transfer : ℕ → Text → Text → Text → ℕ → Database → Result StoreError Database
unfolding standing_row mark is_observed vanish_row lost_of taken
vanish_transfer clock network key tx now d =
    let d' : Database = record d {
      observations = mark (is_observed network key tx) (vanish_row now) d.observations;
    } in
    elim (standing_row network key tx d.observations) [
      | none ↦ ok d
      | some row ↦ elim (lost_of row) [ none ↦ ok d' | some one ↦ taken clock one d' ]
    ]

-- The loops of `Record` over what was seen, and over what was sent.
unfoldable pub record_each :
    (Text → Option ℕ) → Text → List Observation → Bool → ℕ → Database → Result StoreError Database
unfolding record_one
record_each numeric network [] final now d = ok d
record_each numeric network (o ∷ rest) final now d =
    record_one numeric network o final now d >>= record_each numeric network rest final now

unfoldable pub arrived_each : ℕ → List Seen → Database → Result StoreError Database
unfolding arrived
arrived_each clock [] d = ok d
arrived_each clock (one ∷ rest) d = arrived clock one d >>= arrived_each clock rest

-- `AnnounceConfirming`
unfoldable pub announce_confirming : (Payment → Option Transfer → Text) → Payment → Transfer → Event
announce_confirming told p t = record {
  name = codes "attempt.confirming";
  payload = told p (some t);
  is_json = true;
}

-- The transfers of one key share the attempt that was read for it: once one of them has confirmed it,
-- the attempt of the others is no longer the one that was read.
unfoldable pub shared_attempt : List Attempt → Hit → Attempt
shared_attempt [] hit = hit.attempt
shared_attempt (a ∷ confirmed) hit =
    let rest = shared_attempt confirmed hit in if text_eq a.key hit.attempt.key then a else rest

-- An attempt confirmed, written and announced.
unfoldable pub confirmed_one :
    (Payment → Option Transfer → Text) → Seen → Attempt → Database → Result StoreError Database
unfolding find write_attempt write_outbox announce_confirming
confirmed_one told one a d = do
  d' ← write_attempt one.hit.account a one.hit.attempt_at.at d
  (p, at) ← find one.hit.account one.hit.payment.id d'
  write_outbox one.hit.account p.id (announce_confirming told p one.transfer) d'

-- The last loop of `Record`, with the attempts that it has confirmed.
unfoldable pub confirm_each :
    (Payment → Option Transfer → Text)
    → List Seen
    → List Attempt
    → Database
    → Result StoreError Database
unfolding is_matched shared_attempt confirm confirmed_one
confirm_each told [] confirmed d = ok d
confirm_each told (one ∷ rest) confirmed d =
    let go = confirm_each told rest in
    if not (is_matched one.reason)
    then go confirmed d
    else elim (confirm one.transfer.authorizer (shared_attempt confirmed one.hit)) [
      | err e ↦ go confirmed d
      | ok a ↦ confirmed_one told one a d >>= go (a ∷ confirmed)
    ]

unfoldable pub txs_of : List Seen → List SeenRefund → List Text
txs_of seen sent =
    map (λ (s : Seen). s.transfer.tx) seen ++ map (λ (s : SeenRefund). s.transfer.tx) sent

-- What a round that read the finalised range no longer sees.
unfoldable pub swept_away :
    ℕ
    → Text
    → ℕ
    → ℕ
    → Bool
    → List Seen
    → List SeenRefund
    → ℕ
    → Database
    → Result StoreError Database
unfolding txs_of vanish
swept_away clock network first last final seen sent now d =
    if final then vanish clock network first last (txs_of seen sent) now d else ok d

-- `Record`
unfoldable pub record_round :
    (Text → Option ℕ)
    → (Payment → Option Transfer → Text)
    → ℕ
    → Text
    → ℕ
    → ℕ
    → Bool
    → List Seen
    → List SeenRefund
    → ℕ
    → Database
    → Result StoreError Database
unfolding record_each seen_against_attempt seen_against_refund swept_away arrived_each confirm_each
record_round numeric told clock network first last final seen sent now d = do
  d₁ ← record_each numeric network (map seen_against_attempt seen) final now d
  d₂ ← record_each numeric network (map seen_against_refund sent) final now d₁
  d₃ ← swept_away clock network first last final seen sent now d₂
  d₄ ← arrived_each clock seen d₃
  confirm_each told seen [] d₄
