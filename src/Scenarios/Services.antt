-- ===== src/Scenarios/Services.antt =====
-- A request that opens a payment, and the same request again a minute later.
use sucopay.Prelude.{ℕ, ◌≡◌, refl, true, false, [], ◌∷◌, ok, arith, replicate}
use sucopay.Text.{Text, text_eq, text_leb, codes}
use sucopay.Text.Invisible.{has}
use sucopay.Payment.Status.{created}
use sucopay.Payment.Metadata.{metadata_problems}
use sucopay.Payment.Aggregate.{Payment, Request, build, parse_id, parse_address, to_microsecond}
use sucopay.Payment.Store.{Database}
use sucopay.Payment.Store.Payments.{
  create, created_columns, insert_payment, payment_checks, is_payment, same_checkout,
}
use sucopay.Payment.Store.Steps.{empty}
use sucopay.Payment.Service.{open_as, with_deadline, too_far, stored_or_refused, created_or_opened}
use sucopay.Payment.Service.Retry.{open_twice}
use sucopay.Scenarios.Samples.{request, sample_id, fresh, noon}

abbrev account : Text
account = codes "account"

abbrev keyed : Request
keyed = record request {
  checkout = record { hash = codes "h"; key_id = codes "k" };
  idempotency = record { key = codes "order-17"; body_hash = codes "b" };
}

abbrev retried : Request
retried = record keyed { checkout = record { hash = codes "i"; key_id = codes "k" } }

abbrev first : Payment
first = record fresh {
  checkout = record { hash = codes "h"; key_id = codes "k" };
  idempotency = record { key = codes "order-17"; body_hash = codes "b" };
}

abbrev second_id : Text
second_id = replicate 32 b'e'

abbrev minute_later : ℕ
minute_later = 64_000_000_060_000_000_000

abbrev second : Payment
second = record first {
  id = second_id;
  created_at = minute_later;
  checkout = record { hash = codes "i"; key_id = codes "k" };
}

abbrev with_first : Database
with_first = record empty {
  payments = record { account = account; stored = created_columns first; version = 1 } ∷ [];
}

first_opened : open_as account sample_id keyed noon empty ≡ ok (first, false, with_first)
unfolding open_as with_deadline too_far stored_or_refused created_or_opened build parse_id
    parse_address metadata_problems has text_eq text_leb create insert_payment payment_checks
    created_columns
first_opened = refl

second_built :
    build second_id (with_deadline retried minute_later) created minute_later minute_later
    ≡ ok second
unfolding with_deadline build parse_id parse_address metadata_problems has text_eq text_leb
second_built = refl

open_twice_example :
    open_as account second_id retried minute_later with_first ≡ ok (first, true, with_first)
unfolding with_deadline too_far is_payment same_checkout created_columns text_eq to_microsecond
open_twice_example =
    open_twice account sample_id second_id keyed retried noon minute_later first second empty
      with_first first_opened (omega arith) (λ e. cc) refl refl refl second_built refl (omega arith)
      refl refl
