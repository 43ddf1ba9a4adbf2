-- ===== src/Scenarios/Reissues.antt =====
-- A payment whose first attempt is superseded and that is given a second.
use sucopay.Prelude.{ok, ◌≡◌, ◌≤◌, refl, true, List, [], ◌∷◌, some, replicate}
use sucopay.Text.{Text, text_eq, text_leb, codes}
use sucopay.Text.Hex.{encode_hex}
use sucopay.Text.Invisible.{has}
use sucopay.Payment.Metadata.{metadata_problems}
use sucopay.Payment.Aggregate.{build, restore, parse_id, parse_address}
use sucopay.Payment.Lifecycle.Storage.{stored_of}
use sucopay.Payment.AttemptStatus.{superseded}
use sucopay.Payment.Attempt.{Attempt, new_attempt, restore_attempt, to_second}
use sucopay.Payment.Store.{Database, AttemptRow}
use sucopay.Payment.Store.Payments.{find, payment_row, is_payment}
use sucopay.Payment.Store.Attempts.{
  live, live_row, is_of, is_live, issue, attempted, attempts_of, save_attempt, is_revision,
  update_attempts,
}
use sucopay.Payment.Store.Lives.{lives_of}
use sucopay.Payment.Service.{issue_attempt, supersede_attempt, the_live}
use sucopay.Payment.Service.Steps.{attempt_issued, attempt_superseded, ◌⇒*◌, stays, goes}
use sucopay.Payment.Service.Issuing.{two_attempts}
use sucopay.Scenarios.Samples.{payable, attempt, sample_id, noon, sixteen, thirty_two}

abbrev account : Text
account = codes "account"

abbrev with_attempts : List AttemptRow → Database
with_attempts rows = record {
  payments = record { account = account; stored = stored_of payable; version = 2 } ∷ [];
  attempts = rows;
  refunds = [];
  outbox = [];
  observations = [];
}

abbrev first : Attempt
first = record attempt { id = encode_hex sixteen; key = encode_hex thirty_two }

abbrev second : Attempt
second = record attempt {
  id = encode_hex (replicate 16 0x11);
  key = encode_hex (replicate 32 0x22);
}

abbrev replaced : AttemptRow
replaced = record {
  account = account;
  attempt = record first { status = superseded };
  revision = 2;
}

first_issued :
    with_attempts []
    ⇒* with_attempts (record { account = account; attempt = first; revision = 1 } ∷ [])
unfolding issue_attempt find payment_row restore build parse_id parse_address metadata_problems has
    text_eq text_leb live live_row is_of is_live new_attempt to_second issue is_payment
first_issued = goes stays (
    attempt_issued account sample_id noon (λ network. true) (some sixteen) (some thirty_two) first
      payable refl)

supersedes :
    supersede_attempt account sample_id first.id
      (with_attempts (record { account = account; attempt = first; revision = 1 } ∷ []))
    ≡ ok (with_attempts (replaced ∷ []))
unfolding encode_hex supersede_attempt find payment_row restore build parse_id parse_address
    metadata_problems has text_eq text_leb live live_row is_of is_live restore_attempt the_live
    attempted attempts_of save_attempt is_revision update_attempts
supersedes = refl

first_replaced : with_attempts [] ⇒* with_attempts (replaced ∷ [])
first_replaced = goes first_issued (attempt_superseded account sample_id first.id supersedes)

issues :
    issue_attempt account sample_id noon
      (λ network. true)
      (some (replicate 16 0x11))
      (some (replicate 32 0x22))
      (with_attempts (replaced ∷ []))
    ≡ ok (
      second,
      payable,
      with_attempts (replaced ∷ record { account = account; attempt = second; revision = 1 } ∷ []),
    )
unfolding encode_hex issue_attempt find payment_row restore build parse_id parse_address
    metadata_problems has text_eq text_leb live live_row is_of is_live new_attempt to_second issue
    is_payment
issues = refl

second_issued :
    with_attempts []
    ⇒* with_attempts (replaced ∷ record { account = account; attempt = second; revision = 1 } ∷ [])
second_issued = goes first_replaced (
    attempt_issued account sample_id noon (λ network. true) (some (replicate 16 0x11))
      (some (replicate 32 0x22)) second payable issues)

two_attempts_example :
    (attempts_of account sample_id
        (replaced ∷ record { account = account; attempt = second; revision = 1 } ∷ [])
      ≤ 2)
    × (lives_of account sample_id
          (replaced ∷ record { account = account; attempt = second; revision = 1 } ∷ [])
        ≤ 1)
two_attempts_example = two_attempts refl second_issued account sample_id
