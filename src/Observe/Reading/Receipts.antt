-- ===== src/Observe/Reading/Receipts.antt =====
-- Which receipts a round reads.
use sucopay.Prelude.{
  ◌≡◌, refl, inl, inr, Bool, true, false, not, ◌&&◌, ◌||◌, List, [], ◌∷◌, any, all, arith,
  Bool-cases,
}
use sucopay.Text.{Text, text_eq, text_eq_iff, text_eq_refl, text_eq→eq}
use sucopay.Observe.Chain.{Consumed}
use sucopay.Observe.Reading.{transactions_from, transactions}

-- A consumption by a transaction, of a key that is waited for; one of a key.
unfoldable pub spends : (Text → Bool) → Text → Consumed → Bool
spends held tx one = text_eq one.tx tx && held one.key

unfoldable pub spent_in : Text → Text → Consumed → Bool
spent_in key tx one = text_eq one.key key && text_eq one.tx tx

-- No text of a list stands in it twice.
unfoldable pub are_distinct : List Text → Bool
are_distinct [] = true
are_distinct (x ∷ xs) = not (any (text_eq x) xs) && are_distinct xs

-- The texts of a list that stand in another.
unfoldable pub meets : List Text → List Text → Bool
meets met [] = false
meets met (x ∷ xs) = any (text_eq x) met || meets met xs

any-met :
    (x : Text) (xs met : List Text)
    → any (text_eq x) xs ≡ true
    → any (text_eq x) met ≡ true
    → meets met xs ≡ true
unfolding meets
any-met x [] met h k = cc
any-met x (y ∷ ys) met h k = ground (arith, any-met x ys met, text_eq_iff x y)

meets-cons :
    (y : Text) (met xs : List Text)
    → meets (y ∷ met) xs ≡ false
    → (meets met xs ≡ false) × (any (text_eq y) xs ≡ false)
unfolding meets
meets-cons y met [] h = (refl, refl)
meets-cons y met (x ∷ xs) h = ground (arith, meets-cons y met xs, text_eq_iff x y, text_eq_iff y x)

transactions_from-once :
    (held : Text → Bool) (spent met : List Text) (cs : List Consumed)
    → (are_distinct (transactions_from held spent met cs) ≡ true)
      × (meets met (transactions_from held spent met cs) ≡ false)
unfolding transactions_from are_distinct meets
transactions_from-once held spent met [] = (refl, refl)
transactions_from-once held spent met (c ∷ cs) = ground (
  arith,
  transactions_from-once held spent met cs,
  transactions_from-once held (c.key ∷ spent) met cs,
  transactions_from-once held (c.key ∷ spent) (c.tx ∷ met) cs,
  meets-cons c.tx met (transactions_from held (c.key ∷ spent) (c.tx ∷ met) cs),
)

spends-more :
    (held : Text → Bool) (c : Consumed) (cs : List Consumed) (xs : List Text)
    → all (λ tx. any (spends held tx) cs) xs ≡ true
    → all (λ tx. any (spends held tx) (c ∷ cs)) xs ≡ true
spends-more held c cs [] h = refl
spends-more held c cs (x ∷ xs) h = ground (arith, spends-more held c cs xs)

-- Each transaction that is read spends a key that is waited for.
transactions_from-spends :
    (held : Text → Bool) (spent met : List Text) (cs : List Consumed)
    → all (λ tx. any (spends held tx) cs) (transactions_from held spent met cs) ≡ true
unfolding transactions_from spends
transactions_from-spends held spent met [] = refl
transactions_from-spends held spent met (c ∷ cs) =
    let same = transactions_from held spent met cs in
    let passed = transactions_from held (c.key ∷ spent) met cs in
    let read = transactions_from held (c.key ∷ spent) (c.tx ∷ met) cs in
    ground (
      arith,
      spends-more held c cs same (transactions_from-spends held spent met cs),
      spends-more held c cs passed (transactions_from-spends held (c.key ∷ spent) met cs),
      spends-more held c cs read (transactions_from-spends held (c.key ∷ spent) (c.tx ∷ met) cs),
      text_eq_iff c.tx c.tx,
    )

-- Whether some transactions spend a key.
abbrev covers : Text → List Consumed → List Text → Bool
covers key cs txs = any (λ tx. any (spent_in key tx) cs) txs

covers-more :
    (key : Text) (c : Consumed) (cs : List Consumed) (xs : List Text)
    → covers key cs xs ≡ true
    → covers key (c ∷ cs) xs ≡ true
covers-more key c cs [] h = cc
covers-more key c cs (x ∷ xs) h = ground (arith, covers-more key c cs xs)

covers-met :
    (key : Text) (c : Consumed) (cs : List Consumed) (xs : List Text)
    → text_eq c.key key ≡ true
    → any (text_eq c.tx) xs ≡ true
    → covers key (c ∷ cs) xs ≡ true
unfolding spent_in
covers-met key c cs [] h k = cc
covers-met key c cs (x ∷ xs) h k = ground (arith, covers-met key c cs xs)

-- Each key that is waited for, and that was spent, has a transaction that is read.
transactions_from-covers :
    (held : Text → Bool) (spent met : List Text) (cs : List Consumed) (key : Text)
    → held key ≡ true
    → any (λ c. text_eq c.key key) cs ≡ true
    → any (text_eq key) spent ≡ false
    → covers key cs met || covers key cs (transactions_from held spent met cs) ≡ true
unfolding transactions_from spent_in
transactions_from-covers held spent met [] key h k f = cc
transactions_from-covers held spent met (c ∷ cs) key h k f = elim (Bool-cases (text_eq c.key key)) [
  | inl same ↦
      let e = text_eq→eq c.key key same in
      elim (Bool-cases (any (text_eq c.tx) met)) [
        | inl before ↦ ground (arith, covers-met key c cs met same before)
        | inr first ↦ ground (arith, e, same, first, text_eq_refl c.tx)
      ]
  | inr other ↦
      let turned : text_eq key c.key ≡ false =
        ground (arith, other, text_eq_iff c.key key, text_eq_iff key c.key) in
      let more = covers-more key c cs in
      ground (
        arith,
        other,
        turned,
        transactions_from-covers held spent met cs key h,
        transactions_from-covers held (c.key ∷ spent) met cs key h,
        transactions_from-covers held (c.key ∷ spent) (c.tx ∷ met) cs key h,
        more met,
        more (transactions_from held spent met cs),
        more (transactions_from held (c.key ∷ spent) met cs),
        more (transactions_from held (c.key ∷ spent) (c.tx ∷ met) cs),
      )
]

-- A round reads no receipt twice; it reads only those of transactions that spend a key which is waited
-- for; and of every such key that was spent it reads a transaction that spends it.
pub transactions_lem :
    (held : Text → Bool) (cs : List Consumed)
    → let txs = transactions held cs in
      (are_distinct txs ≡ true)
      × (all (λ tx. any (spends held tx) cs) txs ≡ true)
      × ((key : Text)
          → held key ≡ true
          → any (λ c. text_eq c.key key) cs ≡ true
          → any (λ tx. any (spent_in key tx) cs) txs ≡ true)
unfolding transactions
transactions_lem held cs = (
  (transactions_from-once held [] [] cs).0,
  transactions_from-spends held [] [] cs,
  λ key h k. ground (arith, transactions_from-covers held [] [] cs key h k),
)
