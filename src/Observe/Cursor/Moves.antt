-- ===== src/Observe/Cursor/Moves.antt =====
-- What a position is after it was moved, and who may move it.
use sucopay.Prelude.{
  ℕ, ◌≤◌, ◌≡◌, ◌≢◌, ◌⊎◌, refl, Bool, true, false, List, [], ◌∷◌, Option, none, some, ok, err, arith,
}
use sucopay.Text.{Text, text_eq_iff, text_eq_refl}
use sucopay.Observe.Cursor.{
  Position, Row, moved, bigint, row_of, get, touched, update, advance, put, set, max_int64,
}

-- Every network has one row.
unfoldable pub has_one_row : List Row → Bool
unfolding row_of
has_one_row [] = true
has_one_row (r ∷ rows) = elim (row_of r.network rows) [ some x ↦ false | none ↦ has_one_row rows ]

update-none :
    (network : Text) (from to : Position) (now : ℕ) (rows : List Row)
    → row_of network rows ≡ none
    → (update network from to now rows).0 ≡ false
unfolding update row_of
update-none network from to now [] h = refl
update-none network from to now (r ∷ rows) h = ground (arith, update-none network from to now rows)

row_of-update :
    (network : Text) (from to : Position) (now : ℕ) (rows : List Row)
    → has_one_row rows ≡ true
    → (update network from to now rows).0 ≡ true
    → row_of network (update network from to now rows).1
      ≡ some (record { network = network; position = to; updated_at = now })
unfolding update row_of has_one_row
row_of-update network from to now [] one h = absurd (ground arith)
row_of-update network from to now (r ∷ rows) one h = ground (
  arith,
  row_of-update network from to now rows,
  update-none network from to now rows,
  text_eq_iff r.network network,
  text_eq_refl network,
)

update-twice :
    (network : Text) (from to next : Position) (now later : ℕ) (rows : List Row)
    → has_one_row rows ≡ true
    → (to.height ≢ from.height) ⊎ (to.hash ≢ from.hash)
    → (update network from to now rows).0 ≡ true
    → (update network from next later (update network from to now rows).1).0 ≡ false
unfolding update row_of has_one_row
update-twice network from to next now later [] one d h = absurd (ground arith)
update-twice network from to next now later (r ∷ rows) one d h = ground (
  arith,
  update-twice network from to next now later rows,
  update-none network from next later rows,
  update-none network from to now rows,
  text_eq_iff r.network network,
  text_eq_iff to.hash from.hash,
)

advance-update :
    (network : Text) (from to : Position) (now : ℕ) (rows rows' : List Row)
    → advance network from to now rows ≡ ok rows'
    → ((update network from to now rows).0 ≡ true)
      × (rows' ≡ (update network from to now rows).1)
      × (from.height ≤ max_int64)
unfolding advance bigint
advance-update network from to now rows rows' h = ground arith

-- Of two instances that have read one position of a network, one moves it: once it has been advanced
-- to another block, advancing it from where it was is answered with `ErrMoved`, to whichever height a
-- bigint holds, and the position is where the first one put it. The table has one row for a network.
pub advance_once :
    (network : Text) (from to next : Position) (now later : ℕ) (rows rows' : List Row)
    → has_one_row rows ≡ true
    → (to.height ≢ from.height) ⊎ (to.hash ≢ from.hash)
    → next.height ≤ max_int64
    → advance network from to now rows ≡ ok rows'
    → (advance network from next later rows' ≡ err moved) × (get network rows' ≡ some to)
unfolding advance bigint get
advance_once network from to next now later rows rows' one d small h =
    let did = advance-update network from to now rows rows' h in
    let second = update-twice network from to next now later rows one d did.0 in
    let is = row_of-update network from to now rows one did.0 in ground arith

row_of-put :
    (network : Text) (at : Position) (now : ℕ) (rows : List Row)
    → row_of network (put network at now rows)
      ≡ some (record { network = network; position = at; updated_at = now })
unfolding row_of put
row_of-put network at now [] = ground (arith, text_eq_refl network)
row_of-put network at now (r ∷ rows) =
    ground (arith, row_of-put network at now rows, text_eq_refl network)

row_of-other :
    (network other : Text) (at : Position) (now : ℕ) (rows : List Row)
    → other ≢ network
    → row_of other (put network at now rows) ≡ row_of other rows
unfolding row_of put
row_of-other network other at now [] n = ground (arith, text_eq_iff network other)
row_of-other network other at now (r ∷ rows) n = ground (
  arith,
  row_of-other network other at now rows,
  text_eq_iff network other,
  text_eq_iff r.network network,
  text_eq_iff r.network other,
)

-- Where `Set` succeeds, it hands back the position that was there, the position is then the one that
-- it was given, touched at that moment, and no other network's position has changed.
pub get-set :
    (network : Text) (at : Position) (now : ℕ) (rows rows' : List Row) (before : Option Position)
    → set network at now rows ≡ ok (before, rows')
    → (before ≡ get network rows)
      × (get network rows' ≡ some at)
      × (touched network rows' ≡ some now)
      × ((other : Text) → other ≢ network → get other rows' ≡ get other rows)
unfolding set get touched bigint
get-set network at now rows rows' before h =
    let is = row_of-put network at now rows in
    (
      ground arith,
      ground arith,
      ground arith,
      λ other n. let same = row_of-other network other at now rows n in ground arith,
    )
