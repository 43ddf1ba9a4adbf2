-- ===== src/Scenarios/Databases.antt =====
-- A database that a payment is stored in, is paid in and is refunded in.
use sucopay.Prelude.{ℕ, ◌≡◌, refl, false, [], ◌∷◌, ok}
use sucopay.Text.{Text, text_eq, text_leb, codes}
use sucopay.Text.Invisible.{has}
use sucopay.Payment.Money.{Money, zero_money, cmp}
use sucopay.Payment.Status.{Status, created, awaiting_payment, succeeded}
use sucopay.Payment.Metadata.{metadata_problems}
use sucopay.Payment.Aggregate.{
  Payment, Request, build, restore, record_received, covered, parse_id, parse_address,
}
use sucopay.Payment.Lifecycle.Moves.{Move, apply}
use sucopay.Payment.Store.{Database, Event}
use sucopay.Payment.Store.Payments.{
  find, create, created_columns, insert_payment, payment_checks, save, save_payment, payment_row,
  update_payment,
}
use sucopay.Text.Decimal.{print, set_string}
use sucopay.Payment.Store.Refunds.{
  create_refund, refund_of_row, received_column, refunded, remaining, below, insert_refund, held_by,
}
use sucopay.Payment.Store.Steps.{
  payment_created, payment_moved, refund_created, ◌⟹*◌, done, then_, empty, Covers,
}
use sucopay.Payment.Store.Ceiling.{refund_ceiling}
use sucopay.Scenarios.Samples.{request, sample_id, fresh, noon, quarter_past, yen, refund}

abbrev account : Text
account = codes "account"

abbrev shown : Request
shown = record request { checkout = record { hash = codes "h"; key_id = codes "k" } }

abbrev shown_payment : Payment
shown_payment = record fresh { checkout = record { hash = codes "h"; key_id = codes "k" } }

abbrev one_row : Database
one_row = record empty {
  payments = record { account = account; stored = created_columns shown_payment; version = 1 } ∷ [];
}

shown_built : build sample_id shown created noon noon ≡ ok shown_payment
unfolding build parse_id parse_address metadata_problems has text_eq text_leb
shown_built = refl

shown_created : create account shown_payment empty ≡ ok one_row
unfolding create insert_payment payment_checks created_columns
shown_created = refl

-- No event.
abbrev quiet : Event
quiet = record { name = []; payload = []; is_json = false }

abbrev stored_as : Status → Money → ℕ → ℕ → Database
stored_as status received closed_at version = record empty {
  payments =
      record {
        account = account;
        stored = record (created_columns shown_payment) {
          status = status;
          received = received;
          closed_at = closed_at;
        };
        version = version;
      }
      ∷ [];
}

abbrev refunded_once : Database
refunded_once = record (stored_as succeeded (yen 1600) quarter_past 4) {
  refunds = record { account = account; refund = refund; version = 1 } ∷ [];
}

was_opened : empty ⟹* one_row
was_opened = then_ done (payment_created account shown_payment shown_created)

was_awaited : empty ⟹* stored_as awaiting_payment zero_money 0 2
unfolding find restore build parse_id parse_address metadata_problems has text_eq text_leb apply
    save save_payment payment_checks created_columns payment_row update_payment
was_awaited = then_ was_opened (
    payment_moved noon account sample_id shown_payment
      (record shown_payment { status = awaiting_payment }) (record { id = sample_id; at = 1 })
      Move.await quiet refl refl refl)

was_paid : empty ⟹* stored_as awaiting_payment (yen 1600) 0 3
unfolding find restore build parse_id parse_address metadata_problems has text_eq text_leb apply
    save save_payment payment_checks created_columns payment_row update_payment record_received
    covered cmp
was_paid = then_ was_awaited (
    payment_moved noon account sample_id (record shown_payment { status = awaiting_payment })
      (record shown_payment { status = awaiting_payment; received = yen 1600 })
      (record { id = sample_id; at = 2 }) (Move.receive (yen 1600)) quiet refl refl refl)

was_settled : empty ⟹* stored_as succeeded (yen 1600) quarter_past 4
unfolding find restore build parse_id parse_address metadata_problems has text_eq text_leb apply
    save save_payment payment_checks created_columns payment_row update_payment record_received
    covered cmp
was_settled = then_ was_paid (
    payment_moved quarter_past account sample_id
      (record shown_payment { status = awaiting_payment; received = yen 1600 })
      (record shown_payment { status = succeeded; received = yen 1600 })
      (record { id = sample_id; at = 3 }) Move.succeed quiet refl refl refl)

was_refunded : empty ⟹* refunded_once
unfolding created_columns create_refund payment_row refund_of_row received_column refunded remaining
    below insert_refund held_by text_eq print set_string
was_refunded = then_ was_settled (refund_created account refund refl refl)

refund_ceiling_example : Covers refunded_once.payments refunded_once.refunds account sample_id
refund_ceiling_example = refund_ceiling was_refunded account sample_id
