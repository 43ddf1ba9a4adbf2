-- ===== src/Scenarios/Rounds.antt =====
-- Rounds of a worker over the transfer that was recorded.
use sucopay.Prelude.{
  ◌≡◌, ◌≢◌, ◌≤◌, refl, ◌⊎◌, Bool, true, false, not, ◌&&◌, List, [], ◌∷◌, any, min, ltb, none, some,
  ok, ap,
}
use sucopay.Text.{text_eq, text_leb, codes}
use sucopay.Text.Invisible.{has}
use sucopay.Text.Decimal.{set_string}
use sucopay.Payment.Money.{cmp}
use sucopay.Payment.Status.{expired}
use sucopay.Payment.Aggregate.{build, restore, parse_id, parse_address}
use sucopay.Payment.Metadata.{metadata_problems}
use sucopay.Payment.Units.{parse_money}
use sucopay.Payment.Attempt.{restore_attempt}
use sucopay.Payment.Store.{Database, ObservationRow}
use sucopay.Payment.Store.Payments.{created_columns}
use sucopay.Payment.Store.Observations.{is_vanished}
use sucopay.Payment.Store.Arrivals.{record_round}
use sucopay.Payment.Store.Backed.{status_at}
use sucopay.Payment.Store.Quiet.{IsQuiet}
use sucopay.Payment.Store.Dues.{may_pay}
use sucopay.Finality.Ask.{gone, disagreed, verdict_eq}
use sucopay.Finality.Worker.{Setting, Standing, for_payment, Answer, next_answer, decided}
use sucopay.Finality.Worker.Round.{Replies, Going, one_candidate, skipped}
use sucopay.Finality.Worker.Agreed.{confirmations, one_candidate-agreed}
use sucopay.Finality.Worker.Patience.{
  answer_after, streak, passed_over, decided-patient, next_answer-asked_again,
}
use sucopay.Finality.Worker.Sweep.{swept}
use sucopay.Finality.Worker.Expiry.{swept-not_expired}
use sucopay.Scenarios.Samples.{payable, transfer, sample_id, noon, quarter_past}
use sucopay.Scenarios.Sightings.{account, polygon, told, got, recorded}
use sucopay.Scenarios.Endpoints.{keeps, patient}

abbrev setting : Setting
setting = record {
  network = polygon;
  misses = 2;
  agreements = 2;
  clock = noon;
  now = quarter_past;
  told = told;
  told_refund = λ r t. codes "{}";
}

-- Every endpoint keeps the transfer.
abbrev replies : Replies
replies = record { endpoint = λ key tx i. keeps; context = λ key tx. patient }

abbrev standing : Standing
standing = record {
  key = transfer.key;
  tx = transfer.tx;
  height = 7;
  hash = codes "0xblock";
  stand = for_payment (record {
    account = account;
    payment = payable;
    payment_at = record { id = sample_id; at = 3 };
    key = transfer.key;
    tx = transfer.tx;
    block_height = 7;
    block_hash = codes "0xblock";
  });
}

abbrev going : Going
going = record { database = recorded; pass = []; places = 0 ∷ 1 ∷ 2 ∷ []; short = false }

one_candidate-agreed_example :
    IsQuiet recorded (one_candidate setting replies [] standing going).0.database
    ⊎ (2 ≤ confirmations replies (0 ∷ 1 ∷ 2 ∷ []) standing)
one_candidate-agreed_example = one_candidate-agreed setting replies [] standing going

abbrev twice_gone : Answer
twice_gone = record { verdict = gone; rounds = 2; skip = 0 }

abbrev forgotten : Database
forgotten = got (decided setting standing twice_gone recorded)

counted : answer_after (gone ∷ gone ∷ []) ≡ some twice_gone
unfolding answer_after
counted = refl

decides : decided setting standing twice_gone recorded ≡ ok forgotten
unfolding decided restore_attempt is_vanished record_round has text_eq created_columns restore build
    parse_id parse_address metadata_problems text_leb parse_money set_string cmp
decides = refl

abbrev none_vanished : List ObservationRow → Bool
none_vanished rows = not (any (λ (row : ObservationRow). is_vanished row.reason) rows)

was_forgotten : forgotten.observations ≢ recorded.observations
unfolding decided restore_attempt is_vanished record_round has text_eq created_columns restore build
    parse_id parse_address metadata_problems text_leb parse_money set_string cmp
was_forgotten e = let same = ap none_vanished e in cc

decided-patient_example : 2 ≤ streak gone (gone ∷ gone ∷ [])
decided-patient_example =
    decided-patient setting standing (gone ∷ gone ∷ []) twice_gone recorded forgotten counted
      decides was_forgotten

next_answer-asked_again_example :
    let a = next_answer none disagreed in
    (skipped (some (passed_over 1 a)) ≡ (verdict_eq disagreed disagreed && ltb 1 (min a.rounds 60)))
    × ((passed_over 1 a).rounds ≡ a.rounds)
next_answer-asked_again_example = next_answer-asked_again none disagreed 1

may_be_paid : any (may_pay account sample_id) recorded.observations ≡ true
unfolding may_pay status_at record_round has text_eq created_columns restore build parse_id
    parse_address metadata_problems text_leb parse_money set_string cmp
may_be_paid = refl

still_open : status_at account sample_id recorded ≢ some expired
unfolding may_pay status_at record_round has text_eq created_columns restore build parse_id
    parse_address metadata_problems text_leb parse_money set_string cmp
still_open e = cc

swept-not_expired_example :
    status_at account sample_id (swept setting [] recorded).database ≢ some expired
swept-not_expired_example =
    swept-not_expired setting [] recorded account sample_id may_be_paid still_open
