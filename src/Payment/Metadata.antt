-- ===== src/Payment/Metadata.antt =====
-- `metadataProblems` of internal/payment/payment.go. A Go map is the list of its entries, in an
-- order that says nothing.
pub mod Accepted
use sucopay.Prelude.{ℕ, List, [], ◌∷◌, ◌++◌, ltb, if◌then◌else◌, length, is_empty}
use sucopay.Text.{Text, text_eq, text_leb, codes}
use sucopay.Text.Invisible.{has}
use sucopay.Payment.Problem.{
  Problems, one, entries, key_empty, key_long, key_invisible, value_long, value_invisible,
}

-- `map[string]string`
abbrev pub Metadata : Type 0
Metadata = List (Text × Text)

-- `MaxMetadataEntries`, `MaxMetadataKeyBytes`, `MaxMetadataValueSize`
abbrev pub max_metadata_entries : ℕ
max_metadata_entries = 20

abbrev pub max_metadata_key_bytes : ℕ
max_metadata_key_bytes = 64

abbrev pub max_metadata_value_size : ℕ
max_metadata_value_size = 512

-- The keys of a map, and the value under a key: `""` under one that it does not hold.
keys : Metadata → List Text
keys [] = []
keys ((k, v) ∷ m) = k ∷ keys m

value_at : Metadata → Text → Text
value_at [] k = []
value_at ((j, v) ∷ m) k = if text_eq j k then v else value_at m k

-- `slices.Sort`
insert_sorted : Text → List Text → List Text
insert_sorted k [] = k ∷ []
insert_sorted k (j ∷ js) = if text_leb k j then k ∷ j ∷ js else j ∷ insert_sorted k js

sort : List Text → List Text
unfolding insert_sorted
sort [] = []
sort (k ∷ ks) = insert_sorted k (sort ks)

-- `"metadata." + key`
field_of : Text → Text
field_of key = codes "metadata." ++ key

key_problems : Text → Problems
unfolding field_of
key_problems key =
    if is_empty key
    then one (codes "metadata") key_empty
    else if ltb max_metadata_key_bytes (length key)
    then one (field_of key) (key_long (length key))
    else if has key
    then one (field_of key) key_invisible
    else []

value_problems : Text → Text → Problems
unfolding field_of
value_problems key value =
    if ltb max_metadata_value_size (length value)
    then one (field_of key) (value_long (length value))
    else if has value
    then one (field_of key) value_invisible
    else []

each_problems : Metadata → List Text → Problems
unfolding key_problems value_problems value_at
each_problems metadata [] = []
each_problems metadata (key ∷ rest) =
    key_problems key ++ (value_problems key (value_at metadata key) ++ each_problems metadata rest)

-- `metadataProblems`
unfoldable pub metadata_problems : Metadata → Problems
unfolding each_problems sort keys
metadata_problems metadata =
    (if ltb max_metadata_entries (length metadata)
      then one (codes "metadata") (entries (length metadata))
      else [])
    ++ each_problems metadata (sort (keys metadata))
