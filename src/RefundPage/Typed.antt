-- ===== src/RefundPage/Typed.antt =====
-- internal/refund/typed.go: the authorisation that a merchant signs.
use sucopay.Prelude.{ℕ, ◌++◌}
use sucopay.Text.{Text, codes}
use sucopay.Text.Decimal.{print}
use sucopay.Payment.Money
use sucopay.Payment.Aggregate.{Payment}
use sucopay.Payment.Refund.{Refund}
use sucopay.Checkout.Typed.{Domain, format_unix}

-- `Message`
pub record Message : Type 0 where
  pub from : Text
  pub to : Text
  pub value : Text
  pub valid_after : Text
  pub valid_before : Text
  pub nonce : Text

-- `TypedData`; its `Domain` has the fields of the payer's.
pub record TypedData : Type 0 where
  pub domain : Domain
  pub message : Message
  pub primary_type : Text

-- `Typed`
unfoldable pub typed : Payment → Refund → Text → Text → ℕ → TypedData
unfolding Money.amount_of print format_unix
typed p r name version chain_id = record {
  domain = record {
    name = name;
    version = version;
    chain_id = chain_id;
    verifying_contract = p.amount.asset.reference;
  };
  message = record {
    from = p.destination;
    to = r.destination;
    value = print (Money.amount_of r.amount);
    valid_after = codes "0";
    valid_before = format_unix r.expires_at;
    nonce = codes "0x" ++ r.key;
  };
  primary_type = codes "TransferWithAuthorization";
}
