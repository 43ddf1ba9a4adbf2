-- ===== src/Payment/Metadata/Accepted.antt =====
-- Which metadata `metadataProblems` has nothing against.
use sucopay.Prelude.{
  ◌≡◌, ◌≤◌, ◌↔◌, refl, ◌∙◌, Bool, true, not, ◌&&◌, List, [], ◌∷◌, ◌++◌, leb, length, is_empty, all,
  pairwise, arith,
}
use sucopay.Text.{Text, text_eq, text_eq_refl}
use sucopay.Text.Invisible.{has}
use sucopay.Payment.Problem.{Problems}
use sucopay.Payment.Metadata.{
  Metadata, keys, value_at, insert_sorted, sort, key_problems, value_problems, each_problems,
  metadata_problems,
}

-- A key of 1 to 64 bytes and a value of at most 512, in which every character shows.
unfoldable pub fits : Text → Text → Bool
fits key value =
    not (is_empty key)
    && leb (length key) 64
    && not (has key)
    && (leb (length value) 512 && not (has value))

-- Entries of different keys, as a map has them.
unfoldable pub are_apart : Metadata → Bool
are_apart m = pairwise (λ (x : Text × Text) (y : Text × Text). not (text_eq x.0 y.0)) m

entry_problems-eq-nil :
    (k v : Text) (rest : Problems)
    → (key_problems k ++ (value_problems k v ++ rest) ≡ []) ↔ ((fits k v ≡ true) × (rest ≡ []))
unfolding key_problems value_problems fits
entry_problems-eq-nil k v rest = ground arith

each_problems-eq-nil :
    (m : Metadata) (ks : List Text)
    → (each_problems m ks ≡ []) ↔ (all (λ k. fits k (value_at m k)) ks ≡ true)
unfolding each_problems
each_problems-eq-nil m [] = (λ e. refl, λ e. refl)
each_problems-eq-nil m (k ∷ ks) =
    ground (
      arith,
      entry_problems-eq-nil k (value_at m k) (each_problems m ks),
      each_problems-eq-nil m ks,
    )

all-insert_sorted :
    (p : Text → Bool) (k : Text) (ks : List Text) → all p (insert_sorted k ks) ≡ (p k && all p ks)
unfolding insert_sorted
all-insert_sorted p k [] = refl
all-insert_sorted p k (j ∷ js) = ground (arith, all-insert_sorted p k js)

all-sort : (p : Text → Bool) (ks : List Text) → all p (sort ks) ≡ all p ks
unfolding sort
all-sort p [] = refl
all-sort p (k ∷ ks) = ground (arith, all-sort p ks, all-insert_sorted p k (sort ks))

-- An entry in front of others leaves the values under theirs.
value_at-behind :
    (k v : Text) (m rest : Metadata)
    → all (λ (e : Text × Text). not (text_eq k e.0)) rest ≡ true
    → all (λ j. fits j (value_at ((k, v) ∷ m) j)) (keys rest)
      ≡ all (λ j. fits j (value_at m j)) (keys rest)
unfolding value_at keys
value_at-behind k v m [] h = refl
value_at-behind k v m ((j, w) ∷ rest) h = ground (arith, value_at-behind k v m rest)

by_entry :
    (m : Metadata)
    → are_apart m ≡ true
    → all (λ k. fits k (value_at m k)) (keys m) ≡ all (λ (e : Text × Text). fits e.0 e.1) m
unfolding value_at keys are_apart
by_entry [] h = refl
by_entry ((k, v) ∷ m) h = ground (arith, by_entry m, value_at-behind k v m m, text_eq_refl k)

-- Nothing is wrong with at most twenty entries that all fit.
pub metadata_problems-eq-nil :
    (m : Metadata)
    → are_apart m ≡ true
    → (metadata_problems m ≡ [])
      ↔ ((length m ≤ 20) × (all (λ (e : Text × Text). fits e.0 e.1) m ≡ true))
unfolding metadata_problems
metadata_problems-eq-nil m apart =
    let each = each_problems-eq-nil m (sort (keys m)) in
    let same : all (λ k. fits k (value_at m k)) (sort (keys m))
        ≡ all (λ (e : Text × Text). fits e.0 e.1) m =
      all-sort (λ k. fits k (value_at m k)) (keys m) ∙ by_entry m apart in
    ground (arith, each, same)
