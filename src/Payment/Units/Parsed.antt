-- ===== src/Payment/Units/Parsed.antt =====
-- What is read as an amount is an amount of the asset that it was read for.
use sucopay.Prelude.{◌≡◌, true, ok, arith}
use sucopay.Text.{Text}
use sucopay.Payment.Asset.{Asset}
use sucopay.Payment.Money.{Money, is_set}
use sucopay.Payment.Units.{parse_money}

pub parse_money-asset :
    (a : Asset) (v : Text) (m : Money) → parse_money a v ≡ ok m → (m.asset ≡ a) × (is_set m ≡ true)
unfolding parse_money is_set
parse_money-asset a v m h = ground arith
