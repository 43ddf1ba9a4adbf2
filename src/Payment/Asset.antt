-- ===== src/Payment/Asset.antt =====
-- internal/payment/asset.go: one token on one network.
use sucopay.Prelude.{ℕ, Bool, not, ◌&&◌, [], ltb, is_empty, if◌then◌else◌, Result, ok, err}
use sucopay.Text.{Text, text_eq, codes}
use sucopay.Text.Invisible.{has}

-- `MaxAssetDecimals`
abbrev pub max_asset_decimals : ℕ
max_asset_decimals = 36

-- `Asset`; the decimals are a uint8
pub record Asset : Type 0 where
  pub network : Text
  pub reference : Text
  pub symbol : Text
  pub decimals : ℕ

-- The errors of `NewAsset`.
pub data AssetError : Type 0 where
  no_network no_reference : AssetError
  too_many_decimals : ℕ → AssetError
  invisible_field : Text → AssetError

-- The zero `Asset`.
abbrev pub zero_asset : Asset
zero_asset = record { network = []; reference = []; symbol = []; decimals = 0 }

-- `NewAsset`
unfoldable pub new_asset : Text → Text → Text → ℕ → Result AssetError Asset
new_asset network reference symbol decimals =
    if is_empty network
    then err no_network
    else if is_empty reference
    then err no_reference
    else if ltb max_asset_decimals decimals
    then err (too_many_decimals decimals)
    else if has network
    then err (invisible_field (codes "network"))
    else if has reference
    then err (invisible_field (codes "reference"))
    else if has symbol
    then err (invisible_field (codes "symbol"))
    else ok
        (record { network = network; reference = reference; symbol = symbol; decimals = decimals })

-- `Asset.IsSet`
unfoldable pub is_set : Asset → Bool
is_set a = not (is_empty a.network) && not (is_empty a.reference)

-- `Asset.Same`
unfoldable pub same : Asset → Asset → Bool
unfolding is_set
same a b =
    is_set a && (is_set b && (text_eq a.network b.network && text_eq a.reference b.reference))
