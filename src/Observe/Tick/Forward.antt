-- ===== src/Observe/Tick/Forward.antt =====
-- Where a round leaves the position of its network.
use sucopay.Prelude.{
  ℕ, ◌+◌, ◌≤◌, ◌≡◌, inl, inr, true, false, List, [], ◌∷◌, some, ltb, ◌==◌, ok, arith, Result-cases,
  Bool-cases, is_some,
}
use sucopay.Text.{Text, text_eq_iff, text_eq_refl}
use sucopay.Payment.Store.Arrivals.{record_round}
use sucopay.Observe.Cursor.{Position, Row, row_of, get, update, advance, bigint}
use sucopay.Observe.Chain.{Block, Head}
use sucopay.Observe.Pace
use sucopay.Observe.Pace.{last_of}
use sucopay.Observe.Pace.CatchUp.{last_of-bounds}
use sucopay.Observe.Reading.{seen, at_last}
use sucopay.Observe.Tick.{
  Site, Observer, Tables, Ticked, position_of, standing, holds, read_to, write, settled, stood,
  ahead, went, held_tick, tick_from, tick_at, tick,
}

update-get :
    (network : Text) (from to : Position) (now : ℕ) (rows : List Row)
    → get network rows ≡ some from
    → get network (update network from to now rows).1 ≡ some to
unfolding get row_of update
update-get network from to now [] h = absurd (ground arith)
update-get network from to now (r ∷ rows) h = ground (
  arith,
  update-get network from to now rows,
  text_eq_refl from.hash,
  text_eq_iff r.network network,
)

pub advance-get :
    (network : Text) (from to : Position) (now : ℕ) (rows rows' : List Row)
    → get network rows ≡ some from
    → advance network from to now rows ≡ ok rows'
    → get network rows' ≡ some to
unfolding advance bigint
advance-get network from to now rows rows' h k = ground (arith, update-get network from to now rows)

-- A chain that answers the block that it is asked for.
abbrev pub Answers : Site → Type 0
Answers s = (h : ℕ) (b : Block) → s.sight.chain.block h ≡ ok b → b.height ≡ h

pub read_to-height :
    (s : Site) (last : ℕ) (final : Block) (to : Position)
    → Answers s
    → read_to s last final ≡ ok to
    → to.height ≡ last
unfolding read_to position_of
read_to-height s last final to honest h = elim (Result-cases (s.sight.kept at_last)) [
  | inr (e, n) ↦ ground (arith, n)
  | inl (u, n) ↦ elim (Result-cases (s.sight.chain.block last)) [
    | inr (e, m) ↦ ground (arith, n, m)
    | inl (b, m) ↦ ground (arith, n, m, honest last b m)
  ]
]

-- The position of the network after a round, from the one before it.
record IsForward (s : Site) (from : Position) (rows rows' : List Row) : Type 0 where
  to : Position
  there : get s.sight.network rows' ≡ some to
  low : from.height ≤ to.height
  high : to.height ≤ from.height + s.width

settled-IsForward :
    (s : Site) (from : Position) (final : Block) (t t' : Tables) (read : List (Text × Text))
    → Answers s
    → get s.sight.network t.cursors ≡ some from
    → from.height ≤ final.height
    → settled s from final t ≡ ok (t', read)
    → IsForward s from t.cursors t'.cursors
unfolding settled write
settled-IsForward s from final t t' read honest h ahead k =
    let last = last_of s.width from.height final.height in
    elim (Result-cases (seen s.sight true (from.height + 1) last [] t.database)) [
      | inr (e, n) ↦ absurd (ground (arith, n))
      | inl (found, n) ↦ elim (Result-cases (read_to s last final)) [
        | inr (e, m) ↦ absurd (ground (arith, n, m))
        | inl (to, m) ↦
            elim (Result-cases (
              record_round s.numeric s.told s.clock s.sight.network (from.height + 1) last true
                found.seen found.sent s.now t.database)) [
                  | inr (e, r) ↦ absurd (ground (arith, n, m, r))
                  | inl (d, r) ↦
                      elim (Result-cases (advance s.sight.network from to s.now t.cursors)) [
                        | inr (e, a) ↦ absurd (ground (arith, n, m, r, a))
                        | inl (cursors, a) ↦
                            let at =
                              advance-get s.sight.network from to s.now t.cursors cursors h a in
                            let height = read_to-height s last final to honest m in
                            let (low, high, far) =
                              last_of-bounds s.width from.height final.height ahead in
                            let same : t'.cursors ≡ cursors = ground (arith, n, m, r, a) in
                            record {
                              to = to;
                              there = rw same at;
                              low = omega (arith, height, low);
                              high = omega (arith, height, far);
                            }
                      ]
                ]
      ]
    ]

stood-IsForward :
    (s : Site) (from : Position) (t t' : Tables) (read : List (Text × Text))
    → get s.sight.network t.cursors ≡ some from
    → stood s from t ≡ ok (t', read)
    → IsForward s from t.cursors t'.cursors
unfolding stood
stood-IsForward s from t t' read h k =
    elim (Result-cases (advance s.sight.network from from s.now t.cursors)) [
      | inr (e, a) ↦ absurd (ground (arith, a))
      | inl (cursors, a) ↦
          let same : t'.cursors ≡ cursors = ground (arith, a) in
          record {
            to = from;
            there = rw same (advance-get s.sight.network from from s.now t.cursors cursors h a);
            low = omega arith;
            high = omega arith;
          }
    ]

-- A round, with what it leaves.
record IsTicked (s : Site) (from : Position) (t : Tables) (r : Ticked) : Type 0 where
  forward : IsForward s from t.cursors r.tables.cursors
  failed : is_some r.failed ≡ true → r.tables ≡ t

still :
    (s : Site) (from : Position) (t : Tables) (r : Ticked)
    → get s.sight.network t.cursors ≡ some from
    → r.tables ≡ t
    → IsTicked s from t r
still s from t r h same = record {
  forward = record { to = from; there = rw same h; low = omega arith; high = omega arith };
  failed = λ f. same;
}

ahead-cursors :
    (s : Site) (head : Head) (read : List (Text × Text)) (t t' : Tables)
    → ahead s head read t ≡ ok t'
    → t'.cursors ≡ t.cursors
unfolding ahead
ahead-cursors s head read t t' h =
    let first = Pace.first_of s.width head.final.height head.latest.height in
    elim (Result-cases (seen s.sight false first head.latest.height read t.database)) [
      | inr (e, n) ↦ ground (arith, n)
      | inl (found, n) ↦
          elim (Result-cases (
            record_round s.numeric s.told s.clock s.sight.network first head.latest.height false
              found.seen found.sent s.now t.database)) [
                | inr (e, m) ↦ ground (arith, n, m)
                | inl (d, m) ↦ ground (arith, n, m)
              ]
    ]

went-IsTicked :
    (s : Site) (head : Head) (from : Position) (o : Observer) (t t' : Tables)
    (read : List (Text × Text))
    → IsForward s from t.cursors t'.cursors
    → IsTicked s from t (went s head o (t', read))
unfolding went
went-IsTicked s head from o t t' read f = elim (Result-cases (ahead s head read t')) [
  | inr (e, n) ↦
      let same : (went s head o (t', read)).tables ≡ t' = ground (arith, n) in
      record { forward = rw same f; failed = λ b. absurd (ground (arith, n)) }
  | inl (u, n) ↦
      let same : (went s head o (t', read)).tables.cursors ≡ t'.cursors =
        ground (arith, n, ahead-cursors s head read t' u n) in
      record { forward = rw same f; failed = λ b. absurd (ground (arith, n)) }
]

held_tick-IsTicked :
    (s : Site) (head : Head) (from : Position) (o : Observer) (t : Tables)
    → Answers s
    → get s.sight.network t.cursors ≡ some from
    → IsTicked s from t (held_tick s head from o t)
unfolding held_tick
held_tick-IsTicked s head from o t honest h =
    elim (Bool-cases (ltb from.height head.final.height)) [
      | inl behind ↦ elim (Result-cases (settled s from head.final t)) [
        | inr (e, n) ↦ still s from t (held_tick s head from o t) h (ground (arith, behind, n))
        | inl ((t', read), n) ↦
            let same : held_tick s head from o t ≡ went s head o (t', read) =
              ground (arith, behind, n) in
            rw same (
              went-IsTicked s head from o t t' read
                (settled-IsForward s from head.final t t' read honest h (ground (arith, behind)) n))
      ]
      | inr reached ↦ elim (Result-cases (stood s from t)) [
        | inr (e, n) ↦ still s from t (held_tick s head from o t) h (ground (arith, reached, n))
        | inl ((t', read), n) ↦
            let same : held_tick s head from o t ≡ went s head o (t', read) =
              ground (arith, reached, n) in
            rw same (went-IsTicked s head from o t t' read (stood-IsForward s from t t' read h n))
      ]
    ]

tick_from-IsTicked :
    (s : Site) (head : Head) (from : Position) (o : Observer) (t : Tables)
    → Answers s
    → get s.sight.network t.cursors ≡ some from
    → IsTicked s from t (tick_from s head from o t)
unfolding tick_from
tick_from-IsTicked s head from o t honest h =
    elim (Bool-cases (ltb head.final.height from.height)) [
      | inl behind ↦ still s from t (tick_from s head from o t) h (ground (arith, behind))
      | inr near ↦ elim (Result-cases (holds s from head.final)) [
        | inr (e, n) ↦ still s from t (tick_from s head from o t) h (ground (arith, near, n))
        | inl (false, n) ↦ still s from t (tick_from s head from o t) h (ground (arith, near, n))
        | inl (true, n) ↦
            let same : tick_from s head from o t ≡ held_tick s head from o t =
              ground (arith, near, n) in
            rw same (held_tick-IsTicked s head from o t honest h)
      ]
    ]

-- A round, of a chain that answers the block which it is asked for, leaves the position of its network
-- where it was or further on, by the width at most; and a round that fails has changed nothing.
pub tick-forward :
    (s : Site) (o : Observer) (t : Tables) (from : Position)
    → Answers s
    → get s.sight.network t.cursors ≡ some from
    → let r = tick s o t in
      (to : Position) × (get s.sight.network r.tables.cursors ≡ some to)
      × (from.height ≤ to.height)
      × (to.height ≤ from.height + s.width)
      × (is_some r.failed ≡ true → r.tables ≡ t)
unfolding tick tick_at
tick-forward s o t from honest h =
    let done_so : IsTicked s from t (tick s o t) = elim (Bool-cases (s.width == 0)) [
      | inl none_wide ↦ still s from t (tick s o t) h (ground (arith, none_wide))
      | inr wide ↦ elim (Result-cases (standing s o).1) [
        | inr (e, n) ↦ still s from t (tick s o t) h (ground (arith, wide, n))
        | inl (head, n) ↦
            let same : tick s o t ≡ tick_from s head from (standing s o).0 t =
              ground (arith, wide, n, h) in
            rw same (tick_from-IsTicked s head from (standing s o).0 t honest h)
      ]
    ] in
    (
      done_so.forward.to, done_so.forward.there, done_so.forward.low, done_so.forward.high,
      done_so.failed,
    )
