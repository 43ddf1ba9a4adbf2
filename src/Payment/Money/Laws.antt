-- ===== src/Payment/Money/Laws.antt =====
-- Comparing and adding amounts.
use sucopay.Prelude.{◌+◌, ◌≡◌, ◌↔◌, true, some, ok, arith}
use sucopay.Text.{text_eq_refl, text_eq_iff}
use sucopay.Payment.Asset
use sucopay.Payment.Asset.{Asset}
use sucopay.Payment.Money.{Money, Sign, is_set, amount_of, comparable, cmp, add, compare_ints}

pub same_refl : (a : Asset) → Asset.is_set a ≡ true → Asset.same a a ≡ true
unfolding Asset.same
same_refl a h = ground (arith, text_eq_refl a.network, text_eq_refl a.reference)

pub same-eq :
    (a b : Asset) → Asset.same a b ≡ true → (a.network ≡ b.network) × (a.reference ≡ b.reference)
unfolding Asset.same
same-eq a b h = ground (arith, text_eq_iff a.network b.network, text_eq_iff a.reference b.reference)

-- Two amounts of one asset compare as their numbers do.
pub cmp_same_asset :
    (m k : Money)
    → is_set m ≡ true
    → is_set k ≡ true
    → m.asset ≡ k.asset
    → cmp m k ≡ ok (compare_ints (amount_of m) (amount_of k))
unfolding cmp is_set
cmp_same_asset m k sm sk e =
    ground (arith, text_eq_refl m.asset.network, text_eq_refl m.asset.reference)

-- Two descriptions of amounts of one token.
pub record IsComparable (m k : Money) : Type 0 where
  pub left_given : is_set m ≡ true
  pub right_given : is_set k ≡ true
  pub network : m.asset.network ≡ k.asset.network
  pub reference : m.asset.reference ≡ k.asset.reference
  pub decimals : m.asset.decimals ≡ k.asset.decimals

module _ (m k : Money) where
  comparable-IsComparable : comparable m k ≡ ok tt → IsComparable m k
  unfolding comparable
  comparable-IsComparable h = ground (
    arith,
    text_eq_iff m.asset.network k.asset.network,
    text_eq_iff m.asset.reference k.asset.reference,
  )

  IsComparable-comparable : IsComparable m k → comparable m k ≡ ok tt
  unfolding comparable
  IsComparable-comparable c = ground (
    arith,
    text_eq_iff m.asset.network k.asset.network,
    text_eq_iff m.asset.reference k.asset.reference,
  )

  cmp-comparable :
      (s : Sign)
      → cmp m k ≡ ok s
      → (comparable m k ≡ ok tt) × (s ≡ compare_ints (amount_of m) (amount_of k))
  unfolding cmp
  cmp-comparable s h = ground arith

  cmp_back :
      (s : Sign) → IsComparable m k → s ≡ compare_ints (amount_of m) (amount_of k) → cmp m k ≡ ok s
  unfolding cmp comparable
  cmp_back s c e = let good = IsComparable-comparable c in ground arith

  add-comparable :
      (r : Money)
      → add m k ≡ ok r
      → (comparable m k ≡ ok tt)
        × (r ≡ record { amount = some (amount_of m + amount_of k); asset = m.asset })
  unfolding add
  add-comparable r h = ground arith

  add_back :
      (r : Money)
      → IsComparable m k
      → r ≡ record { amount = some (amount_of m + amount_of k); asset = m.asset }
      → add m k ≡ ok r
  unfolding add
  add_back r c e = let good = IsComparable-comparable c in ground arith

  -- Exactly amounts of one token, described with the same decimals, compare, and they compare as
  -- their numbers do; a symbol takes no part.
  pub cmp_iff :
      (s : Sign)
      → (cmp m k ≡ ok s) ↔ (IsComparable m k × (s ≡ compare_ints (amount_of m) (amount_of k)))
  cmp_iff s = (
    λ h. (comparable-IsComparable (cmp-comparable s h).0, (cmp-comparable s h).1),
    λ h. cmp_back s h.0 h.1,
  )

  -- Exactly those have a sum, which is the sum of the numbers in the asset of the first.
  pub add_iff :
      (r : Money)
      → (add m k ≡ ok r) ↔ (
          IsComparable m k
          × (r ≡ record { amount = some (amount_of m + amount_of k); asset = m.asset }))
  add_iff r = (
    λ h. (comparable-IsComparable (add-comparable r h).0, (add-comparable r h).1),
    λ h. add_back r h.0 h.1,
  )
