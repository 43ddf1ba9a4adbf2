-- ===== src/Scenarios/Money.antt =====
-- Amounts and texts.
use sucopay.Prelude.{◌≡◌, refl, ok, arith}
use sucopay.Text.{codes}
use sucopay.Payment.Money.{is_set}
use sucopay.Text.Decimal.{print, trim_zeros}
use sucopay.Payment.Units.{point_at, padded, parse_units, units}
use sucopay.Payment.Units.RoundTrip.{parse_units-units}
use sucopay.Scenarios.Samples.{jpyc, yen}

-- A yen and a half, written.
units_of_yen : units (yen 1_500_000_000_000_000_000) ≡ codes "1.5"
unfolding units point_at padded print trim_zeros
units_of_yen = refl

parse_units-units_example :
    parse_units jpyc (units (yen 1_500_000_000_000_000_000)) ≡ ok (yen 1_500_000_000_000_000_000)
unfolding is_set
parse_units-units_example =
    parse_units-units (yen 1_500_000_000_000_000_000) refl (omega arith) (omega arith)
