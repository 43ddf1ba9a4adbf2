-- ===== src/Payment/Evidence/RefundRules.antt =====
-- Which transfers the rules call matched against a refund.
use sucopay.Prelude.{
  ◌<◌, ◌≡◌, sym, ◌∙◌, ◌↔◌, ◌⊎◌, inl, inr, true, none, some, ok, arith, Result-cases,
}
use sucopay.Text.{Text, text_eq_iff}
use sucopay.Payment.Asset.{Asset}
use sucopay.Payment.Money
use sucopay.Payment.Money.{Money, less, equal, greater, cmp, amount_of, compare_ints}
use sucopay.Payment.Money.Laws.{cmp_same_asset}
use sucopay.Payment.Units.{parse_money}
use sucopay.Payment.Units.Parsed.{parse_money-asset}
use sucopay.Payment.Aggregate.{Payment}
use sucopay.Payment.Refund.{Refund}
use sucopay.Payment.Evidence.{Transfer, Reason, matched, short, over, judge_refund, against}

-- The transfer spends the refund's key, in its way, on the payment's network.
pub record IsOfRefund (t : Transfer) (r : Refund) (p : Payment) : Type 0 where
  pub key : t.key ≡ r.key
  pub scheme : t.scheme ≡ r.scheme
  pub network : r.network ≡ p.amount.asset.network

-- A text that reads as the asked number of an asset's smallest units, no more and no less.
abbrev pub Exactly : Asset → Text → Money → Type 0
Exactly a v asked = (m : Money) × (parse_money a v ≡ ok m) × (amount_of m ≡ amount_of asked)

-- What the merchant signed for, done: the asset, out of the wallet that was paid, to the refund's
-- destination, the amount exactly, before the key dies.
pub record IsRefundMatch (t : Transfer) (r : Refund) (p : Payment) : Type 0 where
  pub asset : t.asset ≡ p.amount.asset.reference
  pub to : t.to ≡ r.destination
  pub from : t.from ≡ p.destination
  pub exact : Exactly p.amount.asset t.value r.amount
  pub in_time : t.block_time < r.expires_at

module _ (a : Asset) (v : Text) (asked : Money) (s : Money.is_set asked ≡ true)
    (e : asked.asset ≡ a) where
  against-Exactly : against (parse_money a v) asked ≡ none → Exactly a v asked
  unfolding against
  against-Exactly h = elim (Result-cases (parse_money a v)) [
    | inl (m, read) ↦
        let of_asset = parse_money-asset a v m read in
        let compared = cmp_same_asset m asked of_asset.1 s (of_asset.0 ∙ sym e) in
        (m, read, ground arith)
    | inr (x, unread) ↦ absurd (ground arith)
  ]

  Exactly-against : Exactly a v asked → against (parse_money a v) asked ≡ none
  unfolding against
  Exactly-against (m, read, h) =
      let of_asset = parse_money-asset a v m read in
      let compared = cmp_same_asset m asked of_asset.1 s (of_asset.0 ∙ sym e) in ground arith

  against-ne-matched :
      (x : Reason) → against (parse_money a v) asked ≡ some x → (x ≡ short) ⊎ (x ≡ over)
  unfolding against
  against-ne-matched x h = ground arith

module _ (t : Transfer) (r : Refund) (p : Payment) (given : Money.is_set r.amount ≡ true)
    (one_asset : r.amount.asset ≡ p.amount.asset) where
  judge_refund-IsRefundMatch :
      judge_refund t (some r) (some p) ≡ some matched → IsOfRefund t r p × IsRefundMatch t r p
  unfolding judge_refund
  judge_refund-IsRefundMatch h = ground (
    arith,
    text_eq_iff t.key r.key,
    text_eq_iff t.scheme r.scheme,
    text_eq_iff r.network p.amount.asset.network,
    text_eq_iff t.asset p.amount.asset.reference,
    text_eq_iff t.to r.destination,
    text_eq_iff t.from p.destination,
    against-Exactly p.amount.asset t.value r.amount given one_asset,
    against-ne-matched p.amount.asset t.value r.amount given one_asset matched,
  )

  IsRefundMatch-judge_refund :
      IsOfRefund t r p → IsRefundMatch t r p → judge_refund t (some r) (some p) ≡ some matched
  unfolding judge_refund
  IsRefundMatch-judge_refund i m =
      let exact = Exactly-against p.amount.asset t.value r.amount given one_asset m.exact in
      ground (
        arith,
        text_eq_iff t.key r.key,
        text_eq_iff t.scheme r.scheme,
        text_eq_iff r.network p.amount.asset.network,
        text_eq_iff t.asset p.amount.asset.reference,
        text_eq_iff t.to r.destination,
        text_eq_iff t.from p.destination,
      )

  -- A transfer is matched against a refund that has an amount, in the asset of the payment, exactly if it is of that refund and sends back what the
  -- merchant signed for: it is of the payment's asset, leaves the wallet that the payment was paid to,
  -- goes to the refund's destination, carries the refund's amount, no more and no less, and does so in
  -- a block whose moment lies before the refund's deadline.
  pub judge_refund_matched_iff :
      (judge_refund t (some r) (some p) ≡ some matched) ↔ (IsOfRefund t r p × IsRefundMatch t r p)
  judge_refund_matched_iff = (judge_refund-IsRefundMatch, λ h. IsRefundMatch-judge_refund h.0 h.1)
