-- ===== src/Scenarios/Pages.antt =====
-- The pages of the payment and of its refund, and the transfers that come of them.
use sucopay.Prelude.{◌≡◌, refl, inl, true, false, none, some, arith}
use sucopay.Text.{codes}
use sucopay.Text.Decimal.{print}
use sucopay.Payment.Money
use sucopay.Payment.Status.{final}
use sucopay.Payment.Evidence.{Transfer, matched, judge, judge_refund}
use sucopay.Checkout.Typed.{typed, format_unix}
use sucopay.Checkout.State.{Facts, reason}
use sucopay.Checkout.Promise.{typed_matched}
use sucopay.RefundPage.Typed as RefundTyped
use sucopay.RefundPage.State as RefundState
use sucopay.RefundPage.Promise.{typed_refund_matched}
use sucopay.Scenarios.Samples.{payable, paid, attempt, transfer, refund, refund_transfer, noon}

abbrev facts : Facts
facts = record {
  now = noon;
  chain_id = 137;
  merchant = codes "Shop";
  network_word = codes "observing";
  watched = true;
  matched = none;
  reissued = false;
  attempt = none;
}

facts_reason : reason payable facts ≡ none
unfolding reason final
facts_reason = refl

-- A transfer of what was asked for, a minute after the payment was opened.
abbrev exact : Transfer
exact = record transfer { value = codes "1500" }

typed_matched_example : judge exact (some attempt) (some payable) ≡ some matched
unfolding Money.is_set Money.amount_of typed format_unix print
typed_matched_example =
    typed_matched payable attempt (codes "JPY Coin") (codes "1") 137 exact refl (omega arith) refl
      refl (inl refl)
      (record {
        scheme = refl;
        asset = refl;
        to = refl;
        value = refl;
        nonce = refl;
        dies = 1864404100;
        deadline = refl;
        in_time = omega arith;
      })

abbrev refund_facts : RefundState.Facts
refund_facts = record {
  now = noon;
  chain_id = 137;
  name = codes "JPY Coin";
  version = codes "1";
  seen = none;
}

typed_refund_matched_example : judge_refund refund_transfer (some refund) (some paid) ≡ some matched
unfolding Money.is_set Money.amount_of RefundTyped.typed format_unix print
typed_refund_matched_example =
    typed_refund_matched paid refund (codes "JPY Coin") (codes "1") 137 refund_transfer refl
      (omega arith) refl refl refl
      (record {
        scheme = refl;
        asset = refl;
        from = refl;
        to = refl;
        value = refl;
        nonce = refl;
        dies = 1864404100;
        deadline = refl;
        in_time = omega arith;
      })
