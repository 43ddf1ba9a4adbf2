-- ===== src/Payment/Evidence/Rules.antt =====
-- Which transfers the rules call matched.
use sucopay.Prelude.{
  ◌≤◌, ◌<◌, ◌≡◌, refl, sym, ◌∙◌, ◌↔◌, ◌⊎◌, inl, inr, true, false, some, ok, arith, Result-cases,
}
use sucopay.Text.{Text, text_eq_iff}
use sucopay.Payment.Asset.{Asset}
use sucopay.Payment.Money
use sucopay.Payment.Money.{
  Money, MoneyError, Sign, less, equal, greater, cmp, amount_of, compare_ints, new_money,
}
use sucopay.Payment.Money.Laws.{cmp_same_asset}
use sucopay.Payment.Units.{parse_money}
use sucopay.Payment.Units.Parsed.{parse_money-asset}
use sucopay.Payment.Status.{awaiting_payment, awaiting_finality}
use sucopay.Payment.Aggregate.{Payment}
use sucopay.Payment.Attempt.{Attempt}
use sucopay.Payment.Evidence.{Transfer, matched, judge, falls_short}

-- The transfer spends the attempt's key, in its way, on the payment's network.
pub record IsOf (t : Transfer) (a : Attempt) (p : Payment) : Type 0 where
  pub key : t.key ≡ a.key
  pub scheme : t.scheme ≡ a.scheme
  pub network : a.network ≡ p.amount.asset.network

-- A text that reads as an amount of the asset, of at least what is asked for.
abbrev pub Enough : Asset → Text → Money → Type 0
Enough a v asked = (m : Money) × (parse_money a v ≡ ok m) × (amount_of asked ≤ amount_of m)

-- What a payer was asked to do, done: the asset, the destination, at least the amount, before the
-- deadline that they signed against, for a payment that something can still arrive for.
pub record IsMatch (t : Transfer) (a : Attempt) (p : Payment) : Type 0 where
  pub asset : t.asset ≡ p.amount.asset.reference
  pub to : t.to ≡ p.destination
  pub enough : Enough p.amount.asset t.value p.amount
  pub in_time : t.block_time < a.valid_before
  pub payable : (p.status ≡ awaiting_payment) ⊎ (p.status ≡ awaiting_finality)

-- Reading the value of a transfer, and finding it enough.
falls_short_not :
    (a : Asset) (v : Text) (asked : Money)
    → Money.is_set asked ≡ true
    → asked.asset ≡ a
    → falls_short (parse_money a v) asked ≡ false
    → Enough a v asked
unfolding falls_short
falls_short_not a v asked s e h = elim (Result-cases (parse_money a v)) [
  | inl (m, read) ↦
      let of_asset = parse_money-asset a v m read in
      let compared = cmp_same_asset m asked of_asset.1 s (of_asset.0 ∙ sym e) in
      (m, read, ground arith)
  | inr (x, unread) ↦ absurd (ground arith)
]

falls_short-Enough :
    (a : Asset) (v : Text) (asked : Money)
    → Money.is_set asked ≡ true
    → asked.asset ≡ a
    → Enough a v asked
    → falls_short (parse_money a v) asked ≡ false
unfolding falls_short
falls_short-Enough a v asked s e (m, read, h) =
    let of_asset = parse_money-asset a v m read in
    let compared = cmp_same_asset m asked of_asset.1 s (of_asset.0 ∙ sym e) in ground arith

module _ (t : Transfer) (a : Attempt) (p : Payment) (given : Money.is_set p.amount ≡ true) where
  judge-IsMatch : judge t (some a) (some p) ≡ some matched → IsOf t a p × IsMatch t a p
  unfolding judge
  judge-IsMatch h = ground (
    arith,
    text_eq_iff t.key a.key,
    text_eq_iff t.scheme a.scheme,
    text_eq_iff a.network p.amount.asset.network,
    text_eq_iff t.asset p.amount.asset.reference,
    text_eq_iff t.to p.destination,
    falls_short_not p.amount.asset t.value p.amount given refl,
  )

  IsMatch-judge : IsOf t a p → IsMatch t a p → judge t (some a) (some p) ≡ some matched
  unfolding judge
  IsMatch-judge i m =
      let enough = falls_short-Enough p.amount.asset t.value p.amount given refl m.enough in
      ground (
        arith,
        text_eq_iff t.key a.key,
        text_eq_iff t.scheme a.scheme,
        text_eq_iff a.network p.amount.asset.network,
        text_eq_iff t.asset p.amount.asset.reference,
        text_eq_iff t.to p.destination,
      )

  -- A transfer is matched against an attempt at a payment that has an amount exactly if it is of that attempt and does
  -- what the payer was asked to do: it is of the payment's asset, goes to its destination, carries at
  -- least the amount asked for, in a block whose moment lies before the attempt's deadline, and the
  -- payment is one that something can still arrive for.
  pub judge_matched_iff : (judge t (some a) (some p) ≡ some matched) ↔ (IsOf t a p × IsMatch t a p)
  judge_matched_iff = (judge-IsMatch, λ h. IsMatch-judge h.0 h.1)
