-- ===== src/Payment/Evidence/Pays.antt =====
-- What a matched transfer is worth to the payment.
use sucopay.Prelude.{◌≤◌, ◌≡◌, ◌⊎◌, true, some, ok, arith}
use sucopay.Payment.Money
use sucopay.Payment.Money.{Money, zero_money, cmp, amount_of, less, compare_ints}
use sucopay.Payment.Money.Laws.{cmp_same_asset}
use sucopay.Payment.Units.{parse_money}
use sucopay.Payment.Units.Parsed.{parse_money-asset}
use sucopay.Payment.Status.{awaiting_payment, awaiting_finality, succeeded}
use sucopay.Payment.Aggregate.{Payment}
use sucopay.Payment.Lifecycle.{receive, succeed}
use sucopay.Payment.Attempt.{Attempt}
use sucopay.Payment.Evidence.{Transfer, matched, judge}
use sucopay.Payment.Evidence.Rules.{judge_matched_iff}

-- Receiving an amount of the payment's asset that is enough, and settling on it.
module _ (p : Payment) (m : Money) (given : Money.is_set p.amount ≡ true)
    (set : Money.is_set m ≡ true) (of_asset : m.asset ≡ p.amount.asset)
    (enough : amount_of p.amount ≤ amount_of m)
    (payable : (p.status ≡ awaiting_payment) ⊎ (p.status ≡ awaiting_finality)) where
  receive_enough : p.received ≡ zero_money → receive m p ≡ ok (record p { received = m })
  unfolding receive
  receive_enough nothing =
      let compared = cmp_same_asset m p.amount set given of_asset in ground arith

  succeed_enough :
      succeed (record p { received = m }) ≡ ok (record p { received = m; status = succeeded })
  unfolding succeed
  succeed_enough = let compared = cmp_same_asset m p.amount set given of_asset in ground arith

-- A matched transfer pays: a payment that has an amount and that nothing has arrived for takes what it
-- carries, and then becomes succeeded holding it, with everything else as it was.
pub judge_matched_pays :
    (t : Transfer) (a : Attempt) (p : Payment)
    → Money.is_set p.amount ≡ true
    → p.received ≡ zero_money
    → judge t (some a) (some p) ≡ some matched
    → (m : Money) × (parse_money p.amount.asset t.value ≡ ok m)
      × (receive m p ≡ ok (record p { received = m }))
      × (succeed (record p { received = m }) ≡ ok (record p { received = m; status = succeeded }))
judge_matched_pays t a p given nothing h =
    let (_, match) = (judge_matched_iff t a p given).0 h in
    let (m, read, enough) = match.enough in
    let (of_asset, set) = parse_money-asset p.amount.asset t.value m read in
    (
      m,
      read,
      receive_enough p m given set of_asset enough match.payable nothing,
      succeed_enough p m given set of_asset enough match.payable,
    )
