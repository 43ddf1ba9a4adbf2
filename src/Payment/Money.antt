-- ===== src/Payment/Money.antt =====
-- internal/payment/money.go: an amount of one asset in its smallest unit.
pub mod Laws
use sucopay.Prelude.{
  ℕ, zero, suc, ◌+◌, ◌≡◌, Bool, true, not, ◌&&◌, ◌||◌, [], ◌∷◌, Option, none, some, ltb, ◌==◌,
  if◌then◌else◌, Result, ok, err, ◌>>=◌, ◌>>◌, is_some, get_or,
}
use sucopay.Text.{Text}
use sucopay.Payment.Asset
use sucopay.Payment.Asset.{Asset, zero_asset}

-- A `big.Int` before its sign was looked at; `negsuc n` is -(n + 1).
pub data ℤ : Type 0 where
  pos : ℕ → ℤ
  negsuc : ℕ → ℤ

-- `Money`; a `*big.Int` that is nil is `none`. No method makes a negative one.
pub record Money : Type 0 where
  pub amount : Option ℕ
  pub asset : Asset

-- The errors of this file, by the sentence that each is written as.
pub data MoneyError : Type 0 where
  no_asset : MoneyError
  no_amount : Asset → MoneyError
  negative_amount : Asset → MoneyError
  different_assets : Asset → Asset → MoneyError
  different_decimals : Asset → ℕ → ℕ → MoneyError
  too_many_characters : ℕ → ℕ → MoneyError
  not_whole_number : Text → MoneyError
  not_amount : Text → MoneyError
  too_many_places : Text → ℕ → MoneyError
  too_many_digits : Text → ℕ → MoneyError

-- The zero `Money`.
abbrev pub zero_money : Money
zero_money = record { amount = none; asset = zero_asset }

-- `NewMoney`
unfoldable pub new_money : Asset → Option ℤ → Result MoneyError Money
unfolding Asset.is_set
new_money asset none = if not (Asset.is_set asset) then err no_asset else err (no_amount asset)
new_money asset (some (negsuc n)) =
    if not (Asset.is_set asset) then err no_asset else err (negative_amount asset)
new_money asset (some (pos n)) =
    if not (Asset.is_set asset)
    then err no_asset
    else ok (record { amount = some n; asset = asset })

-- `Money.IsSet`
unfoldable pub is_set : Money → Bool
unfolding Asset.is_set
is_set m = Asset.is_set m.asset && is_some m.amount

-- `Money.Amount`
unfoldable pub amount_of : Money → ℕ
amount_of m = get_or m.amount 0

-- `comparable`
unfoldable pub comparable : Money → Money → Result MoneyError (Unit {0})
unfolding is_set Asset.same
comparable m other =
    if not (is_set m) || not (is_set other)
    then err no_asset
    else if not (Asset.same m.asset other.asset)
    then err (different_assets m.asset other.asset)
    else if not (m.asset.decimals == other.asset.decimals)
    then err (different_decimals m.asset m.asset.decimals other.asset.decimals)
    else ok tt

-- `Money.Add`
unfoldable pub add : Money → Money → Result MoneyError Money
unfolding comparable amount_of
add m other = do
  comparable m other
  ok (record { amount = some (amount_of m + amount_of other); asset = m.asset })

-- What `Cmp` answers: -1, 0 or 1.
pub data Sign : Type 0 where
  less equal greater : Sign

-- `big.Int.Cmp`
abbrev pub compare_ints : ℕ → ℕ → Sign
compare_ints a b = if ltb a b then less else if a == b then equal else greater

-- `Money.Cmp`
unfoldable pub cmp : Money → Money → Result MoneyError Sign
unfolding comparable amount_of
cmp m other = do comparable m other; ok (compare_ints (amount_of m) (amount_of other))
