-- ===== src/Prelude/Pairs.antt =====
-- Lists whose elements stand in a relation, each two of them, as they are sorted and cut.
use Prim.Native.Nat.{ℕ, zero, suc}
use mathlib.Core.Path.{◌≡◌, refl}
use mathlib.Core.Bool.{Bool, true, ◌&&◌}
use mathlib.Core.List.{List, [], ◌∷◌}
use native.Mathlib.Omega.{arith}
use sucopay.Prelude.Lists.{all, keep, insert_by, sort_by, take}

module _ {ℓ} {A : Type ℓ} where
  abbrev pub pairwise : (A → A → Bool) → List A → Bool
  pairwise r [] = true
  pairwise r (x ∷ xs) = all (r x) xs && pairwise r xs

module _ {ℓ} {A : Type ℓ} (q : A → Bool) where
  pub all-keep : (p : A → Bool) (xs : List A) → all q xs ≡ true → all q (keep p xs) ≡ true
  all-keep p [] h = refl
  all-keep p (x ∷ xs) h = ground (arith, all-keep p xs)

  all-insert_by :
      (b : A → A → Bool) (x : A) (xs : List A)
      → q x ≡ true
      → all q xs ≡ true
      → all q (insert_by b x xs) ≡ true
  all-insert_by b x [] p h = ground arith
  all-insert_by b x (y ∷ ys) p h = ground (arith, all-insert_by b x ys p)

  pub all-sort_by : (b : A → A → Bool) (xs : List A) → all q xs ≡ true → all q (sort_by b xs) ≡ true
  all-sort_by b [] h = refl
  all-sort_by b (x ∷ xs) h = ground (arith, all-sort_by b xs, all-insert_by b x (sort_by b xs))

  pub all-take : (n : ℕ) (xs : List A) → all q xs ≡ true → all q (take n xs) ≡ true
  all-take zero xs h = refl
  all-take (suc n) [] h = refl
  all-take (suc n) (x ∷ xs) h = ground (arith, all-take n xs)

module _ {ℓ} {A : Type ℓ} (r : A → A → Bool) where
  pub pairwise-keep :
      (p : A → Bool) (xs : List A) → pairwise r xs ≡ true → pairwise r (keep p xs) ≡ true
  pairwise-keep p [] h = refl
  pairwise-keep p (x ∷ xs) h = ground (arith, pairwise-keep p xs, all-keep (r x) p xs)

  pub pairwise-take : (n : ℕ) (xs : List A) → pairwise r xs ≡ true → pairwise r (take n xs) ≡ true
  pairwise-take zero xs h = refl
  pairwise-take (suc n) [] h = refl
  pairwise-take (suc n) (x ∷ xs) h = ground (arith, pairwise-take n xs, all-take (r x) n xs)

  module _ (turned : (x y : A) → r x y ≡ true → r y x ≡ true) where
    pairwise-insert_by :
        (b : A → A → Bool) (x : A) (xs : List A)
        → all (r x) xs ≡ true
        → pairwise r xs ≡ true
        → pairwise r (insert_by b x xs) ≡ true
    pairwise-insert_by b x [] p h = refl
    pairwise-insert_by b x (y ∷ ys) p h =
        ground (arith, pairwise-insert_by b x ys, all-insert_by (r y) b x ys, turned x y)

    pub pairwise-sort_by :
        (b : A → A → Bool) (xs : List A) → pairwise r xs ≡ true → pairwise r (sort_by b xs) ≡ true
    pairwise-sort_by b [] h = refl
    pairwise-sort_by b (x ∷ xs) h = ground (
      arith,
      pairwise-sort_by b xs,
      pairwise-insert_by b x (sort_by b xs),
      all-sort_by (r x) b xs,
    )
