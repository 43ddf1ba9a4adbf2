-- ===== src/Scenarios/Payments.antt =====
-- A payment that is opened, paid and settled, and one whose deadline comes.
use sucopay.Prelude.{◌+◌, ◌<◌, ◌≡◌, ◌↔◌, refl, inl, List, [], ◌∷◌, ok, arith, IsOk}
use sucopay.Text.{text_eq, text_leb}
use sucopay.Text.Invisible.{has}
use sucopay.Payment.Money
use sucopay.Payment.Money.{cmp, zero_money}
use sucopay.Payment.Metadata.{metadata_problems}
use sucopay.Payment.Status.{created, succeeded, valid, final}
use sucopay.Payment.Aggregate.{Payment, build, restore, parse_id, parse_address, to_microsecond}
use sucopay.Payment.Aggregate.Acceptance.{IsAcceptable, build_iff}
use sucopay.Payment.Metadata.Accepted.{are_apart}
use sucopay.Payment.Lifecycle.Moves.{Move, apply, run}
use sucopay.Payment.Lifecycle.Diagram.{run-final}
use sucopay.Payment.Lifecycle.Soundness.{IsSound, run-IsSound}
use sucopay.Payment.Lifecycle.Storage.{stored_of, restore-stored_of, restore-same_microsecond}
use sucopay.Scenarios.Samples.{yen, request, sample_id, fresh, paid, noon, quarter_past}

fresh-IsSound : IsSound fresh
unfolding parse_id parse_address metadata_problems has text_eq text_leb Money.is_set Money.amount_of
    to_microsecond valid
fresh-IsSound = record {
  id_shaped = refl;
  amount_given = refl;
  amount_positive = omega arith;
  destination_shaped = refl;
  metadata_kept = refl;
  status_valid = refl;
  opened_before = omega arith;
  created_whole = refl;
  expires_whole = refl;
  received_fits = inl refl;
  created_unpaid = λ e. refl;
  succeeded_paid = λ e. cc;
}

-- Opened, paid too much, settled; then everything is refused.
abbrev life : List Move
life =
    Move.succeed
    ∷ Move.await
    ∷ Move.receive (yen 1600)
    ∷ Move.succeed
    ∷ Move.unreceive
    ∷ Move.fail
    ∷ []

life_succeeds : (run fresh life).status ≡ succeeded
unfolding run apply cmp text_eq
life_succeeds = refl

run-IsSound_example : IsSound (run fresh life)
run-IsSound_example = run-IsSound fresh life fresh-IsSound

run-final_example : run paid life ≡ paid
unfolding final
run-final_example = run-final paid life refl

-- Asked to close a second early, and then in time.
abbrev waiting : List Move
waiting = Move.await_finality noon ∷ Move.await_finality quarter_past ∷ Move.expire ∷ []

restore-stored_of_example : restore (stored_of fresh) ≡ ok fresh
restore-stored_of_example = restore-stored_of fresh fresh-IsSound

fresh_built : build sample_id request created noon noon ≡ ok fresh
unfolding build parse_id parse_address metadata_problems has text_eq text_leb
fresh_built = refl

build_iff_example :
    IsOk (build sample_id request created noon noon)
    ↔ (IsAcceptable sample_id request × (noon < quarter_past))
unfolding are_apart text_eq
build_iff_example = build_iff sample_id request created noon noon refl

-- A deadline that lies 400 nanoseconds after the moment that it is asked for at.
abbrev hasty : Payment
hasty = record fresh { expires_at = noon }

hasty_built :
    build sample_id (record request { expires_at = noon + 900 }) created (noon + 500) (noon + 500)
    ≡ ok hasty
unfolding build parse_id parse_address metadata_problems has text_eq text_leb
hasty_built = refl

restore-same_microsecond_example : ¬ IsOk (restore (stored_of hasty))
unfolding to_microsecond
restore-same_microsecond_example =
    restore-same_microsecond sample_id (record request { expires_at = noon + 900 }) (noon + 500)
      hasty hasty_built refl
