-- ===== src/Scenarios/Transfers.antt =====
-- A transfer that pays the payment, a hundred units too much.
use sucopay.Prelude.{◌≡◌, ◌↔◌, refl, some, ok}
use sucopay.Text.{text_eq}
use sucopay.Text.Decimal.{set_string}
use sucopay.Payment.Money
use sucopay.Payment.Money.{Money, cmp}
use sucopay.Payment.Units.{parse_money}
use sucopay.Payment.Status.{succeeded}
use sucopay.Payment.Lifecycle.{receive, succeed}
use sucopay.Payment.Evidence.{matched, judge}
use sucopay.Payment.Evidence.Rules.{IsOf, IsMatch, judge_matched_iff}
use sucopay.Payment.Evidence.Pays.{judge_matched_pays}
use sucopay.Scenarios.Samples.{payable, attempt, transfer}

transfer_matched : judge transfer (some attempt) (some payable) ≡ some matched
unfolding judge text_eq parse_money cmp set_string
transfer_matched = refl

judge_matched_iff_example :
    (judge transfer (some attempt) (some payable) ≡ some matched)
    ↔ (IsOf transfer attempt payable × IsMatch transfer attempt payable)
unfolding Money.is_set
judge_matched_iff_example = judge_matched_iff transfer attempt payable refl

judge_matched_pays_example :
    (m : Money) × (parse_money payable.amount.asset transfer.value ≡ ok m)
    × (receive m payable ≡ ok (record payable { received = m }))
    × (succeed (record payable { received = m })
        ≡ ok (record payable { received = m; status = succeeded }))
unfolding Money.is_set
judge_matched_pays_example = judge_matched_pays transfer attempt payable refl refl transfer_matched
