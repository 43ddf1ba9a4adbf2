-- ===== src/Scenarios/Attempts.antt =====
-- An attempt at the payment: issued, seen on the chain and gone again.
use sucopay.Prelude.{◌≡◌, refl, some, inl, ok}
use sucopay.Text.{text_eq}
use sucopay.Text.Hex.{encode_hex}
use sucopay.Payment.Aggregate.{parse_id, parse_address}
use sucopay.Payment.AttemptStatus.{confirming, valid}
use sucopay.Payment.Attempt.{Attempt, new_attempt, confirm, to_second}
use sucopay.Payment.Attempt.Laws.{IsSound}
use sucopay.Text.Invisible.{has}
use sucopay.Text.{codes}
use sucopay.Scenarios.Samples.{payable, attempt, noon, sixteen, thirty_two}

abbrev minted : Attempt
minted = record attempt { id = encode_hex sixteen; key = encode_hex thirty_two }

minted_made : new_attempt (some payable) noon (some sixteen) (some thirty_two) ≡ ok minted
unfolding new_attempt to_second
minted_made = refl

attempt-IsSound : IsSound attempt
unfolding parse_id valid text_eq
attempt-IsSound = record {
  id_shaped = refl;
  payment_shaped = refl;
  scheme_known = refl;
  network_given = refl;
  key_shaped = refl;
  status_valid = refl;
  issued_unsigned = λ e. refl;
  confirming_signed = λ e. cc;
  signer_shaped = inl refl;
}

abbrev confirmed : Attempt
confirmed = record attempt { authorizer = codes "0xPayer"; status = confirming }

confirm_sample : confirm (codes "0xPayer") attempt ≡ ok confirmed
unfolding confirm parse_address has
confirm_sample = refl
