-- ===== src/Checkout/Promise.antt =====
-- What the page of a payment promises its payer.
use sucopay.Prelude.{
  ℕ, ◌+◌, ◌-◌, ◌/◌, ◌≤◌, ◌<◌, ◌^◌, ◌≡◌, ◌↔◌, ◌⊎◌, inl, inr, true, false, List, ◌++◌, none, some,
  arith, IsOk, drop, Result-cases, sym, ap, ◌∙◌,
}
use sucopay.Text.{Text, codes}
use sucopay.Text.Decimal.{print}
use sucopay.Payment.Money
use sucopay.Payment.Money.{Money}
use sucopay.Payment.Status.{awaiting_payment, awaiting_finality, final, status_eq}
use sucopay.Payment.Aggregate.{Payment}
use sucopay.Payment.Units.{digits}
use sucopay.Payment.Units.RoundTrip.{parse_money-digits}
use sucopay.Payment.Attempt.{Attempt, new_attempt, min_remaining, second, eip3009}
use sucopay.Payment.Evidence.{Transfer, matched, judge}
use sucopay.Payment.Evidence.Rules.{judge_matched_iff}
use sucopay.Checkout.Typed.{TypedData, typed, epoch, format_unix}
use sucopay.Text.Decimal.RoundTrip.{digits-print, value_from-print}
use sucopay.Checkout.State.{Facts, reason}

-- The page gives no reason against signing exactly if the payment has not ended, no matched transfer
-- was seen, at least two minutes are left until its deadline, the network has been read, and its
-- reissue is not used.
pub reason_none_iff :
    (p : Payment) (f : Facts)
    → (reason p f ≡ none) ↔ (
        (final p.status ≡ false)
        × (f.matched ≡ none)
        × (f.now + min_remaining ≤ p.expires_at)
        × (f.watched ≡ true)
        × (f.reissued ≡ false))
unfolding reason
reason_none_iff p f = (λ h. ground arith, λ h. ground arith)

-- A page that gives no reason against signing is right about it: an attempt at the payment, if it is
-- awaiting payment, can be made at that moment when the random source answers.
pub signable_attempt :
    (p : Payment) (f : Facts) (random_id random_key : List ℕ)
    → p.status ≡ awaiting_payment
    → reason p f ≡ none
    → IsOk (new_attempt (some p) f.now (some random_id) (some random_key))
unfolding new_attempt status_eq
signable_attempt p f random_id random_key s h =
    elim (Result-cases (new_attempt (some p) f.now (some random_id) (some random_key))) [
      | inl made ↦ made
      | inr (e, refused) ↦ let open_ = (reason_none_iff p f).0 h in absurd (ground arith)
    ]

-- What a text that a moment is written as says of it.
pub format_unix-print : (t n : ℕ) → format_unix t ≡ print n → t / second ≡ epoch + n
unfolding format_unix
format_unix-print t n h =
    ground (arith, digits-print n, value_from-print n, value_from-print (t / second - epoch))

-- What the chain makes of a signed authorisation: a transfer on the contract that the domain names,
-- to where the message says, of the value that it says, under its nonce, in a block whose second is
-- before the one that the message names.
pub record IsSpent (t : Transfer) (d : TypedData) : Type 0 where
  pub scheme : t.scheme ≡ eip3009
  pub asset : t.asset ≡ d.domain.verifying_contract
  pub to : t.to ≡ d.message.to
  pub value : t.value ≡ d.message.value
  pub nonce : codes "0x" ++ t.key ≡ d.message.nonce
  pub dies : ℕ
  pub deadline : d.message.valid_before ≡ print dies
  pub in_time : t.block_time / second < epoch + dies

-- A payer who signs what the page gives is one who pays: the transfer that a chain makes of it is
-- matched against the attempt, if the payment has an amount of at most 78 digits and is awaiting
-- payment or finality, and the attempt is for that chain and authorised as EIP-3009 has it.
pub typed_matched :
    (p : Payment) (a : Attempt) (name version : Text) (chain_id : ℕ) (t : Transfer)
    → Money.is_set p.amount ≡ true
    → Money.amount_of p.amount < 10 ^ 78
    → a.scheme ≡ eip3009
    → a.network ≡ p.amount.asset.network
    → (p.status ≡ awaiting_payment) ⊎ (p.status ≡ awaiting_finality)
    → IsSpent t (typed p a name version chain_id)
    → judge t (some a) (some p) ≡ some matched
unfolding typed digits
typed_matched p a name version chain_id t given short scheme network payable spent =
    (judge_matched_iff t a p given).1 (
      record {
        key = ap (λ s. drop 2 s) spent.nonce;
        scheme = spent.scheme ∙ sym scheme;
        network = network;
      },
      record {
        asset = spent.asset;
        to = spent.to;
        enough = (p.amount, ground (arith, parse_money-digits p.amount given short), omega arith);
        in_time =
            omega
              (arith, spent.in_time, format_unix-print a.valid_before spent.dies spent.deadline);
        payable = payable;
      },
    )
