-- ===== src/Scenarios/Refunds.antt =====
-- A refund of part of the payment, and the transfer that makes it.
use sucopay.Prelude.{◌+◌, ◌≡◌, ◌↔◌, refl, some, ok}
use sucopay.Text.{text_eq}
use sucopay.Text.Hex.{encode_hex, hex_of_length}
use sucopay.Text.Invisible.{has}
use sucopay.Payment.Money
use sucopay.Payment.RefundStatus
use sucopay.Payment.Aggregate.{parse_address, problems_of_address}
use sucopay.Payment.Refund.{Refund, new_refund, refund_life, refund_problems, refund_of}
use sucopay.Payment.Evidence.{matched, judge_refund}
use sucopay.Payment.Evidence.RefundRules.{IsOfRefund, IsRefundMatch, judge_refund_matched_iff}
use sucopay.Scenarios.Samples.{paid, refund, refund_request, refund_transfer, noon, thirty_two}

abbrev opened : Refund
opened = record refund { key = encode_hex thirty_two; expires_at = noon + refund_life }

opened_made : new_refund (some paid) refund.id refund_request noon (some thirty_two) ≡ ok opened
unfolding new_refund refund_problems refund_of parse_address problems_of_address text_eq has
    hex_of_length
opened_made = refl

abbrev done : Refund
done = record refund { status = RefundStatus.succeeded }

judge_refund_matched_iff_example :
    (judge_refund refund_transfer (some refund) (some paid) ≡ some matched)
    ↔ (IsOfRefund refund_transfer refund paid × IsRefundMatch refund_transfer refund paid)
unfolding Money.is_set
judge_refund_matched_iff_example = judge_refund_matched_iff refund_transfer refund paid refl refl
