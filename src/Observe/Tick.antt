-- ===== src/Observe/Tick.antt =====
-- internal/observe/observer.go: a round of an observer. What a round finds and the position that it
-- read to are written in one transaction, so that a round that fails in it has written neither.
pub mod Forward
pub mod CatchUp
use sucopay.Prelude.{
  ℕ, ◌+◌, ◌-◌, Bool, true, false, not, ◌&&◌, ◌||◌, List, [], ◌∷◌, Option, none, some, ltb, leb,
  ◌==◌, is_empty, if◌then◌else◌, Result, ok, err, ◌>>=◌, ◌>>◌, map_err,
}
use sucopay.Text.{Text, text_eq}
use sucopay.Payment.Aggregate.{Payment}
use sucopay.Payment.Evidence.{Transfer}
use sucopay.Payment.Store.{Database}
use sucopay.Payment.Store.Observations.{Seen, SeenRefund}
use sucopay.Payment.Store.Arrivals.{record_round}
use sucopay.Observe.Cursor
use sucopay.Observe.Cursor.{Position, Row, advance}
use sucopay.Observe.Chain.{Block, Head, Chain, ChainError, no_final}
use sucopay.Observe.Pace.{last_of, first_of, read_implementation_every}
use sucopay.Observe.Reading.{
  ObserveError, chain, store, cursor, lost, no_width, mismatch, Sight, Sighted, at_head, at_block,
  at_last, seen,
}

-- The words of a network.
pub data Word : Type 0 where
  observing no_cursor unreachable no_finalized stalled chain_mismatch finalized_behind : Word
  finalized_changed : Word

-- What an observer carries from one round to the next.
pub record Observer : Type 0 where
  pub word : Word
  pub identified : ℕ
  pub succeeded : ℕ

-- What a round stands in: the network's configuration and the width that the observer has come to, the
-- process's clock and the database's, and what `Record` takes from elsewhere.
pub record Site : Type 0 where
  pub sight : Sight
  pub want : Text
  pub width : ℕ
  pub now : ℕ
  pub clock : ℕ
  pub numeric : Text → Option ℕ
  pub told : Payment → Option Transfer → Text

-- The tables that a round writes.
pub record Tables : Type 0 where
  pub database : Database
  pub cursors : List Row

-- `at`, of a block
unfoldable pub position_of : Block → Position
position_of b = record { height = b.height; hash = b.hash; time = b.time }

unfoldable pub says : Word → Observer → Observer
says w o = record o { word = w }

-- What the network says of a head that could not be read.
unfoldable pub unread : ChainError → Word
unread no_final = no_finalized
unread _ = unreachable

-- The head, once the chain has been identified.
unfoldable pub head_of : Site → Observer → Observer × Result ObserveError Head
unfolding says unread
head_of s o = elim s.sight.chain.head [
  | err e ↦ (says (unread e) o, err (chain e))
  | ok head ↦ (o, ok head)
]

unfoldable pub identified_as : Site → Text → Observer → Observer × Result ObserveError Head
unfolding says head_of
identified_as s identity o =
    let o' : Observer = record o { identified = s.now } in
    if not (is_empty s.want) && not (text_eq identity s.want)
    then (says chain_mismatch o', err (mismatch identity s.want))
    else head_of s o'

-- `standing`
unfoldable pub standing : Site → Observer → Observer × Result ObserveError Head
unfolding says head_of identified_as
standing s o = elim (s.sight.kept at_head) [
  | err e ↦ (o, err e)
  | ok u ↦ elim (leb read_implementation_every (s.now - o.identified)) [
    | false ↦ head_of s o
    | true ↦ elim s.sight.chain.identity [
      | err e ↦ (says unreachable o, err (chain e))
      | ok identity ↦ identified_as s identity o
    ]
  ]
]

-- `holds`
unfoldable pub holds : Site → Position → Block → Result ObserveError Bool
holds s from final =
    if final.height == from.height
    then ok (text_eq final.hash from.hash)
    else if final.height == from.height + 1
    then ok (text_eq final.parent from.hash)
    else s.sight.kept at_block
      >> (map_err chain (s.sight.chain.block from.height) >>= λ b. ok (text_eq b.hash from.hash))

-- `Observer.at`
unfoldable pub read_to : Site → ℕ → Block → Result ObserveError Position
unfolding position_of
read_to s last final =
    if last == final.height
    then ok (position_of final)
    else s.sight.kept at_last
      >> (map_err chain (s.sight.chain.block last) >>= λ b. ok (position_of b))

-- `write`
unfoldable pub write :
    Site → ℕ → ℕ → Position → Position → Sighted → Tables → Result ObserveError Tables
unfolding record_round advance
write s first last from to found t = do
  d ← map_err store (
      record_round s.numeric s.told s.clock s.sight.network first last true found.seen found.sent
        s.now t.database)
  cursors ← map_err cursor (advance s.sight.network from to s.now t.cursors)
  ok (record { database = d; cursors = cursors })

-- `settled`, with the code that it has read
unfoldable pub settled :
    Site → Position → Block → Tables → Result ObserveError (Tables × List (Text × Text))
unfolding last_of seen read_to write
settled s from final t = do
  let last = last_of s.width from.height final.height
  found ← seen s.sight true (from.height + 1) last [] t.database
  to ← read_to s last final
  t' ← write s (from.height + 1) last from to found t
  ok (t', found.read)

-- `stood`
unfoldable pub stood : Site → Position → Tables → Result ObserveError (Tables × List (Text × Text))
unfolding advance
stood s from t = map_err cursor (advance s.sight.network from from s.now t.cursors) >>= λ cursors.
    ok (record t { cursors = cursors }, [])

-- `ahead`; a round that fails in it has written nothing in it
unfoldable pub ahead : Site → Head → List (Text × Text) → Tables → Result ObserveError Tables
unfolding first_of seen record_round
ahead s head read t =
    let first = first_of s.width head.final.height head.latest.height in
    if leb head.latest.height head.final.height
    then ok t
    else seen s.sight false first head.latest.height read t.database >>= λ found.
        if is_empty found.seen && is_empty found.sent
        then ok t
        else map_err store (
            record_round s.numeric s.told s.clock s.sight.network first head.latest.height false
              found.seen found.sent s.now t.database)
          >>= λ d. ok (record t { database = d })

-- A round that came to an end, or to an error.
pub record Ticked : Type 0 where
  pub observer : Observer
  pub tables : Tables
  pub failed : Option ObserveError

-- What follows what was written.
unfoldable pub went : Site → Head → Observer → Tables × List (Text × Text) → Ticked
unfolding says ahead
went s head o (t, read) =
    let o' : Observer = record (says observing o) { succeeded = s.now } in
    elim (ahead s head read t) [
      | err e ↦ record { observer = o'; tables = t; failed = none }
      | ok t' ↦ record { observer = o'; tables = t'; failed = none }
    ]

-- A round from a position that the chain still holds.
unfoldable pub held_tick : Site → Head → Position → Observer → Tables → Ticked
unfolding settled stood went
held_tick s head from o t =
    elim (if ltb from.height head.final.height
      then settled s from head.final t
      else stood s from t) [
        | err e ↦ record { observer = o; tables = t; failed = some e }
        | ok written ↦ went s head o written
      ]

-- A round from a position.
unfoldable pub tick_from : Site → Head → Position → Observer → Tables → Ticked
unfolding says holds held_tick
tick_from s head from o t =
    if ltb head.final.height from.height
    then record { observer = says finalized_behind o; tables = t; failed = none }
    else elim (holds s from head.final) [
      | err e ↦ record { observer = o; tables = t; failed = some e }
      | ok held ↦
          if not held
          then record { observer = says finalized_changed o; tables = t; failed = none }
          else held_tick s head from o t
    ]

-- The first round of a network: it starts at the final block.
unfoldable pub start : Site → Head → Observer → Tables → Ticked
unfolding says position_of Cursor.init
start s head o t = elim (Cursor.init s.sight.network (position_of head.final) s.now t.cursors) [
  | err e ↦ record { observer = says no_cursor o; tables = t; failed = some (cursor e) }
  | ok cursors ↦ record {
    observer = says no_cursor o;
    tables = record t { cursors = cursors };
    failed = none;
  }
]

unfoldable pub tick_at : Site → Head → Observer → Tables → Ticked
unfolding Cursor.get start tick_from
tick_at s head o t = elim (Cursor.get s.sight.network t.cursors) [
  | none ↦ start s head o t
  | some from ↦ tick_from s head from o t
]

-- `tick`
unfoldable pub tick : Site → Observer → Tables → Ticked
unfolding standing tick_at
tick s o t =
    let (o', head) = standing s o in
    if s.width == 0
    then record { observer = o; tables = t; failed = some no_width }
    else elim head [
      | err e ↦ record { observer = o'; tables = t; failed = some e }
      | ok h ↦ tick_at s h o' t
    ]
