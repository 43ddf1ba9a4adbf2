-- ===== src/Scenarios/Sightings.antt =====
-- A payment that is waited for, a transfer that an observer sees for it, and the worker's rounds.
use sucopay.Prelude.{
  ℕ, ◌+◌, ◌≡◌, refl, true, false, ◌&&◌, any, all, [], ◌∷◌, Option, none, some, Result, ok, err,
}
use sucopay.Text.{Text, text_eq, text_leb, codes}
use sucopay.Text.Invisible.{has}
use sucopay.Text.Decimal.{set_string}
use sucopay.Payment.Money.{cmp}
use sucopay.Payment.Status.{awaiting_payment}
use sucopay.Payment.Aggregate.{Payment, build, restore, parse_id, parse_address}
use sucopay.Payment.Metadata.{metadata_problems}
use sucopay.Payment.Units.{parse_money}
use sucopay.Payment.Attempt.{restore_attempt}
use sucopay.Payment.Evidence.{Transfer, matched}
use sucopay.Payment.Store.{Database, ObservationRow, StoreError}
use sucopay.Payment.Store.Steps.{empty}
use sucopay.Payment.Store.Payments.{created_columns, payment_row}
use sucopay.Payment.Store.Attempts.{attempt_row}
use sucopay.Payment.Store.Observations.{
  is_vanished, Hit, Seen, SeenRefund, inserted, seen_against_attempt,
}
use sucopay.Payment.Store.Arrivals.{
  Lost, record_round, arrived, standing_row, vanish_transfer, is_for_attempt, is_for_payment,
  is_missing, txs_of,
}
use sucopay.Payment.Store.Backed.{is_backed}
use sucopay.Payment.Store.Vanishing.{are_keyed}
use sucopay.Payment.Store.Unconfirming.{is_attempt_backed}
use sucopay.Payment.Store.GivenUp.{vanish_transfer-taken_back}
use sucopay.Payment.Store.Recorded.{has_row}
use sucopay.Payment.Store.Sweeping.{record_round-swept}
use sucopay.Payment.Store.Arriving.{arrived-again}
use sucopay.Scenarios.Samples.{fresh, payable, attempt, transfer, sample_id, noon}

abbrev pub account : Text
account = codes "account"

abbrev pub polygon : Text
polygon = codes "polygon"

-- A database with the payment, which is awaiting payment, and its attempt.
abbrev pub watched : Database
watched = record empty {
  payments =
      record {
        account = account;
        stored = record (created_columns fresh) { status = awaiting_payment };
        version = 2;
      }
      ∷ [];
  attempts = record { account = account; attempt = attempt; revision = 1 } ∷ [];
}

abbrev pub hit : Hit
hit = record {
  account = account;
  attempt = attempt;
  attempt_at = record { id = attempt.id; at = 1 };
  payment = payable;
  payment_at = record { id = sample_id; at = 2 };
}

abbrev pub sighted : Seen
sighted = record { hit = hit; transfer = transfer; reason = matched; implementation = [] }

abbrev pub numeric : Text → Option ℕ
numeric t = some 1600

abbrev pub told : Payment → Option Transfer → Text
told p t = codes "{}"

abbrev pub got : Result StoreError Database → Database
got (ok d) = d
got (err e) = empty

-- What a round that read the block of the transfer leaves, and what giving the transfer up leaves of it.
abbrev pub recorded : Database
recorded =
    got (record_round numeric told noon polygon 7 7 true (sighted ∷ []) [] (noon + 1) watched)

abbrev given_up : Database
given_up = got (vanish_transfer noon polygon transfer.key transfer.tx (noon + 2) recorded)

abbrev received : Database
received = got (arrived noon sighted watched)

did_record :
    record_round numeric told noon polygon 7 7 true (sighted ∷ []) [] (noon + 1) watched
    ≡ ok recorded
unfolding record_round has text_eq created_columns restore build parse_id parse_address
    metadata_problems text_leb parse_money set_string cmp
did_record = refl

abbrev row : ObservationRow
row = inserted polygon (seen_against_attempt sighted) 7 1600 true (noon + 1)

stands : standing_row polygon transfer.key transfer.tx recorded.observations ≡ some row
unfolding record_round has text_eq created_columns restore build parse_id parse_address
    metadata_problems text_leb parse_money set_string cmp standing_row inserted seen_against_attempt
stands = refl

gave_up : vanish_transfer noon polygon transfer.key transfer.tx (noon + 2) recorded ≡ ok given_up
unfolding record_round has text_eq created_columns restore build parse_id parse_address
    metadata_problems text_leb parse_money set_string cmp vanish_transfer restore_attempt
gave_up = refl

one_row_each : are_keyed recorded.observations ≡ true
unfolding record_round has text_eq created_columns restore build parse_id parse_address
    metadata_problems text_leb parse_money set_string cmp are_keyed
one_row_each = refl

was_against : row.attempt ≡ some attempt.id
unfolding inserted seen_against_attempt
was_against = refl

abbrev lost : Lost
lost = record { account = row.account; payment = row.payment; attempt = attempt.id }

vanish_transfer-taken_back_example :
    (standing_row polygon transfer.key transfer.tx given_up.observations ≡ none)
    × (is_attempt_backed lost given_up ≡ true)
    × (is_backed row.account row.payment given_up ≡ true)
    × (any (is_for_attempt lost) given_up.observations ≡ true
        → given_up.attempts ≡ recorded.attempts)
    × (any (is_for_payment row.account row.payment) given_up.observations ≡ true
        → given_up.payments ≡ recorded.payments)
    × ((b j k : Text)
        → text_eq row.account b && (text_eq row.payment j && text_eq attempt.id k) ≡ false
        → attempt_row b j k given_up.attempts ≡ attempt_row b j k recorded.attempts)
    × ((b j : Text)
        → text_eq row.account b && text_eq row.payment j ≡ false
        → payment_row b j given_up.payments ≡ payment_row b j recorded.payments)
    × (given_up.refunds ≡ recorded.refunds)
    × (given_up.outbox ≡ recorded.outbox)
    × ((b j : Text) → is_backed b j recorded ≡ true → is_backed b j given_up ≡ true)
vanish_transfer-taken_back_example =
    vanish_transfer-taken_back noon (noon + 2) polygon transfer.key transfer.tx attempt.id row
      recorded given_up one_row_each stands was_against gave_up

record_round-swept_example :
    (all (λ (s : Seen). has_row polygon recorded.observations s.transfer) (sighted ∷ []) ≡ true)
    × (all (λ (s : SeenRefund). has_row polygon recorded.observations s.transfer) [] ≡ true)
    × (are_keyed recorded.observations ≡ true)
    × (any (is_missing polygon 7 7 (txs_of (sighted ∷ []) [])) recorded.observations ≡ false)
unfolding are_keyed is_vanished
record_round-swept_example =
    record_round-swept numeric told noon polygon 7 7 (sighted ∷ []) [] (noon + 1) watched recorded
      did_record refl refl refl

did_arrive : arrived noon sighted watched ≡ ok received
unfolding record_round has text_eq created_columns restore build parse_id parse_address
    metadata_problems text_leb parse_money set_string cmp arrived
did_arrive = refl

arrived-again_example : arrived (noon + 5) sighted received ≡ ok received
arrived-again_example = arrived-again noon (noon + 5) sighted watched received did_arrive
