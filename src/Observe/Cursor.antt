-- ===== src/Observe/Cursor.antt =====
-- internal/observe/cursor.go: how far each network has been read. The table observation_cursors is a
-- list of rows with different networks; a null block_time is the zero time, 0.
pub mod Moves
use sucopay.Prelude.{
  ℕ, ◌+◌, ◌-◌, ◌^◌, Bool, true, false, not, ◌&&◌, List, [], ◌∷◌, ◌++◌, Option, none, some, ltb,
  ◌==◌, if◌then◌else◌, is_some, Result, ok, err, ◌>>=◌, ◌>>◌,
}
use sucopay.Text.{Text, text_eq}

-- `Position`
pub record Position : Type 0 where
  pub height : ℕ
  pub hash : Text
  pub time : ℕ

-- A row of observation_cursors.
pub record Row : Type 0 where
  pub network : Text
  pub position : Position
  pub updated_at : ℕ

-- The errors of this file: `ErrMoved`, and a height that a bigint does not hold.
pub data CursorError : Type 0 where
  moved : CursorError
  too_high : ℕ → CursorError

-- `math.MaxInt64`
abbrev pub max_int64 : ℕ
max_int64 = 9_223_372_036_854_775_807

-- `bigint`
unfoldable pub bigint : Position → Result CursorError ℕ
bigint at = if ltb max_int64 at.height then err (too_high at.height) else ok at.height

unfoldable pub row_of : Text → List Row → Option Row
row_of network [] = none
row_of network (r ∷ rows) =
    let rest = row_of network rows in if text_eq r.network network then some r else rest

-- `Get`
unfoldable pub get : Text → List Row → Option Position
unfolding row_of
get network rows = elim (row_of network rows) [ none ↦ none | some r ↦ some r.position ]

-- `Has`
unfoldable pub has : Text → List Row → Bool
unfolding get
has network rows = is_some (get network rows)

-- `Touched`
unfoldable pub touched : Text → List Row → Option ℕ
unfolding row_of
touched network rows = elim (row_of network rows) [ none ↦ none | some r ↦ some r.updated_at ]

-- `Init`
unfoldable pub init : Text → Position → ℕ → List Row → Result CursorError (List Row)
unfolding bigint has
init network at now rows = do
  bigint at
  if has network rows
      then ok rows
      else ok (rows ++ record { network = network; position = at; updated_at = now } ∷ [])

-- `update observation_cursors ... where network = $1 and height = $2 and hash = $3`, and whether it
-- met a row.
unfoldable pub update : Text → Position → Position → ℕ → List Row → Bool × List Row
update network from to now [] = (false, [])
update network from to now (r ∷ rows) =
    let rest = update network from to now rows in
    if text_eq r.network network
      && (r.position.height == from.height && text_eq r.position.hash from.hash)
    then (true, record { network = network; position = to; updated_at = now } ∷ rows)
    else (rest.0, r ∷ rest.1)

-- `Advance`
unfoldable pub advance : Text → Position → Position → ℕ → List Row → Result CursorError (List Row)
unfolding bigint update
advance network from to now rows = do
  bigint from
  bigint to
  if (update network from to now rows).0 then ok (update network from to now rows).1 else err moved

-- `insert ... on conflict (network) do update`
unfoldable pub put : Text → Position → ℕ → List Row → List Row
put network at now [] = record { network = network; position = at; updated_at = now } ∷ []
put network at now (r ∷ rows) =
    let rest = put network at now rows in
    if text_eq r.network network
    then record { network = network; position = at; updated_at = now } ∷ rows
    else r ∷ rest

-- `Set`: what was there, and the table.
unfoldable pub set :
    Text → Position → ℕ → List Row → Result CursorError (Option Position × List Row)
unfolding bigint get put
set network at now rows = do bigint at; ok (get network rows, put network at now rows)
