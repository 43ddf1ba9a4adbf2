-- ===== src/Observe/Pace/CatchUp.antt =====
-- Heights in a row, and how near a round of a width comes to the final block.
use sucopay.Prelude.{ℕ, zero, suc, ◌+◌, ◌*◌, ◌≤◌, ◌≡◌, List, [], ◌∷◌, ◌++◌, arith, ap}
use sucopay.Observe.Pace.{last_of}

-- Some heights in a row.
unfoldable pub heights : ℕ → ℕ → List ℕ
heights first zero = []
heights first (suc n) = first ∷ heights (first + 1) n

pub heights-append :
    (first m n : ℕ) → heights first (m + n) ≡ heights first m ++ heights (first + m) n
unfolding heights
heights-append first zero n = ground arith
heights-append first (suc m) n =
    let one_more : suc m + n ≡ suc (m + n) = omega arith in
    let after : first + suc m ≡ first + 1 + m = omega arith in
    rw (one_more, after) (ap (λ (xs : List ℕ). first ∷ xs) (heights-append (first + 1) m n))

pub last_of-bounds :
    (width from final : ℕ)
    → from ≤ final
    → (from ≤ last_of width from final)
      × (last_of width from final ≤ final)
      × (last_of width from final ≤ from + width)
unfolding last_of
last_of-bounds width from final h = ground arith

pub nearer :
    (n width from final : ℕ)
    → final ≤ from + suc n * width
    → final ≤ last_of width from final + n * width
unfolding last_of
nearer n width from final h =
    let split : suc n * width ≡ width + n * width = omega arith in ground (arith, split)
