-- ===== src/Checkout/Typed.antt =====
-- internal/checkout/typed.go: the authorisation that a payer signs.
use sucopay.Prelude.{ℕ, ◌-◌, ◌/◌, ◌∷◌, ◌++◌, ltb, if◌then◌else◌}
use sucopay.Text.{Text, codes}
use sucopay.Text.Decimal.{print}
use sucopay.Payment.Money
use sucopay.Payment.Aggregate.{Payment}
use sucopay.Payment.Attempt.{Attempt, second}

-- The seconds from the zero time to the beginning of 1970.
abbrev pub epoch : ℕ
epoch = 62_135_596_800

-- `strconv.FormatInt(t.Unix(), 10)`
unfoldable pub format_unix : ℕ → Text
unfolding print
format_unix t =
    let s = t / second in if ltb s epoch then b'-' ∷ print (epoch - s) else print (s - epoch)

-- `Domain`
pub record Domain : Type 0 where
  pub name : Text
  pub version : Text
  pub chain_id : ℕ
  pub verifying_contract : Text

-- `Message`
pub record Message : Type 0 where
  pub to : Text
  pub value : Text
  pub valid_after : Text
  pub valid_before : Text
  pub nonce : Text

-- `TypedData`
pub record TypedData : Type 0 where
  pub id : Text
  pub domain : Domain
  pub message : Message
  pub primary_type : Text

abbrev pub primary_type : Text
primary_type = codes "TransferWithAuthorization"

-- `Typed`
unfoldable pub typed : Payment → Attempt → Text → Text → ℕ → TypedData
unfolding Money.amount_of print format_unix
typed p a name version chain_id = record {
  id = a.id;
  domain = record {
    name = name;
    version = version;
    chain_id = chain_id;
    verifying_contract = p.amount.asset.reference;
  };
  message = record {
    to = p.destination;
    value = print (Money.amount_of p.amount);
    valid_after = codes "0";
    valid_before = format_unix a.valid_before;
    nonce = codes "0x" ++ a.key;
  };
  primary_type = primary_type;
}
