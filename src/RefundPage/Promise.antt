-- ===== src/RefundPage/Promise.antt =====
-- What the page of a refund promises its merchant.
use sucopay.Prelude.{
  ℕ, ◌+◌, ◌/◌, ◌<◌, ◌^◌, ◌≡◌, ◌↔◌, refl, sym, ap, ◌∙◌, true, false, ◌++◌, none, some, arith, drop,
}
use sucopay.Text.{Text, codes}
use sucopay.Text.Decimal.{print}
use sucopay.Payment.Asset.{Asset}
use sucopay.Payment.Money
use sucopay.Payment.Money.{Money}
use sucopay.Payment.Units.{digits}
use sucopay.Payment.Units.RoundTrip.{parse_money-digits}
use sucopay.Payment.RefundStatus.{final}
use sucopay.Payment.Aggregate.{Payment}
use sucopay.Payment.Attempt.{second, eip3009}
use sucopay.Payment.Refund.{Refund}
use sucopay.Payment.Evidence.{Transfer, matched, judge_refund}
use sucopay.Payment.Evidence.RefundRules.{Exactly, judge_refund_matched_iff}
use sucopay.Checkout.Typed.{epoch}
use sucopay.Checkout.Promise.{format_unix-print}
use sucopay.RefundPage.Typed.{TypedData, typed}
use sucopay.RefundPage.State.{Facts, reason, build}

-- The page hands out something to sign exactly while the refund has not ended, no transfer was seen
-- for it, and its deadline has not come; and it is the authorisation of that refund.
pub authorization_iff :
    (p : Payment) (r : Refund) (f : Facts) (d : TypedData)
    → ((build p r f).authorization ≡ some d) ↔ (
        (final r.status ≡ false)
        × (f.seen ≡ none)
        × (f.now < r.expires_at)
        × (d ≡ typed p r f.name f.version f.chain_id))
unfolding build reason
authorization_iff p r f d = (λ h. ground arith, λ h. ground arith)

-- What the chain makes of a signed authorisation.
pub record IsSpent (t : Transfer) (d : TypedData) : Type 0 where
  pub scheme : t.scheme ≡ eip3009
  pub asset : t.asset ≡ d.domain.verifying_contract
  pub from : t.from ≡ d.message.from
  pub to : t.to ≡ d.message.to
  pub value : t.value ≡ d.message.value
  pub nonce : codes "0x" ++ t.key ≡ d.message.nonce
  pub dies : ℕ
  pub deadline : d.message.valid_before ≡ print dies
  pub in_time : t.block_time / second < epoch + dies

-- The digits of an amount read as that amount, in whichever asset.
read_exactly :
    (asset : Asset) (m : Money)
    → Money.is_set m ≡ true
    → Money.amount_of m < 10 ^ 78
    → m.asset ≡ asset
    → Exactly asset (print (Money.amount_of m)) m
unfolding digits Money.amount_of
read_exactly asset m given short same = (m, rw (sym same) (parse_money-digits m given short), refl)

-- A merchant who signs what the page gives is one who refunds: the transfer that a chain makes of it
-- is matched against the refund, if the refund is one of the payment's asset and network, authorised
-- as EIP-3009 has it, of an amount of at most 78 digits.
pub typed_refund_matched :
    (p : Payment) (r : Refund) (name version : Text) (chain_id : ℕ) (t : Transfer)
    → Money.is_set r.amount ≡ true
    → Money.amount_of r.amount < 10 ^ 78
    → r.amount.asset ≡ p.amount.asset
    → r.scheme ≡ eip3009
    → r.network ≡ p.amount.asset.network
    → IsSpent t (typed p r name version chain_id)
    → judge_refund t (some r) (some p) ≡ some matched
unfolding typed
typed_refund_matched p r name version chain_id t given short one_asset scheme network spent =
    (judge_refund_matched_iff t r p given one_asset).1 (
      record {
        key = ap (λ s. drop 2 s) spent.nonce;
        scheme = spent.scheme ∙ sym scheme;
        network = network;
      },
      record {
        asset = spent.asset;
        to = spent.to;
        from = spent.from;
        exact = rw spent.value (read_exactly p.amount.asset r.amount given short one_asset);
        in_time =
            omega (arith, spent.in_time, format_unix-print r.expires_at spent.dies spent.deadline);
      },
    )
