-- ===== src/Observe/Tick/CatchUp.antt =====
-- An observer that is behind the final block reaches it, and reads every block on the way once.
use sucopay.Prelude.{
  ℕ, zero, suc, ◌+◌, ◌-◌, ◌*◌, ◌≤◌, ◌<◌, ◌≡◌, refl, inl, inr, true, ◌&&◌, List, [], ◌++◌, some,
  ◌==◌, ok, err, arith, Result-cases, Bool-cases, if◌then◌else◌,
}
use sucopay.Text.{Text}
use sucopay.Payment.Store.Arrivals.{record_round}
use sucopay.Observe.Cursor.{Position, get, advance}
use sucopay.Observe.Chain.{Block, Chain, ChainError}
use sucopay.Observe.Pace.{last_of}
use sucopay.Observe.Pace.CatchUp.{heights, heights-append, last_of-bounds, nearer}
use sucopay.Observe.Reading.{Sighted, at_scan, seen}
use sucopay.Observe.Tick.{Site, Tables, read_to, write, settled, stood}
use sucopay.Observe.Tick.Forward.{Answers, advance-get, read_to-height}

-- A site whose chain answers for the keys of one range, and for those of no other.
unfoldable pub only : ℕ → ℕ → Site → Site
only first last s =
    let c = s.sight.chain in
    let narrow : Chain = record c {
      keys = λ f l references.
          if f == first && l == last then c.keys f l references else err ChainError.other;
    } in
    record s { sight = record s.sight { chain = narrow } }

-- Rounds of an observer while the final block stands, each where a range is all that the chain answers
-- for: how many, the heights of the ranges, and the position and the tables before and after.
pub data Rounds (s : Site) (final : Block)
    : ℕ → List ℕ → Position → Tables → Position → Tables → Type 0 where
  none_more : {at : Position} {t : Tables} → Rounds s final zero [] at t at t
  behind :
      {n : ℕ} {hs : List ℕ} {from to end : Position} {t t' u : Tables} (first last : ℕ)
      (read : List (Text × Text))
      → from.height < final.height
      → settled (only first last s) from final t ≡ ok (t', read)
      → get s.sight.network t'.cursors ≡ some to
      → Rounds s final n hs to t' end u
      → Rounds s final (suc n) (heights first (last + 1 - first) ++ hs) from t end u
  level :
      {n : ℕ} {hs : List ℕ} {from end : Position} {t t' u : Tables} (read : List (Text × Text))
      → from.height ≡ final.height
      → stood s from t ≡ ok (t', read)
      → Rounds s final n hs from t' end u
      → Rounds s final (suc n) hs from t end u

seen-only :
    (first last f l : ℕ) (s : Site) (read : List (Text × Text)) (t : Tables) (found : Sighted)
    → seen (only first last s).sight true f l read t.database ≡ ok found
    → (f ≡ first) × (l ≡ last)
unfolding seen only
seen-only first last f l s read t found h = elim (Bool-cases (f == first && l == last)) [
  | inl e ↦ (ground (arith, e), ground (arith, e))
  | inr e ↦ elim (Result-cases (s.sight.kept (at_scan true))) [
    | inr (x, n) ↦ absurd (ground (arith, n))
    | inl (x, n) ↦ absurd (ground (arith, n, e))
  ]
]

write-get :
    (s : Site) (first last : ℕ) (from at : Position) (found : Sighted) (t u : Tables)
    → get s.sight.network t.cursors ≡ some from
    → write s first last from at found t ≡ ok u
    → get s.sight.network u.cursors ≡ some at
unfolding write
write-get s first last from at found t u k w =
    elim (Result-cases (
      record_round s.numeric s.told s.clock s.sight.network first last true found.seen found.sent
        s.now t.database)) [
          | inr (e, r) ↦ absurd (ground (arith, r))
          | inl (d, r) ↦ elim (Result-cases (advance s.sight.network from at s.now t.cursors)) [
            | inr (e, a) ↦ absurd (ground (arith, r, a))
            | inl (cursors, a) ↦
                let got = advance-get s.sight.network from at s.now t.cursors cursors k a in
                ground (arith, r, a, got)
          ]
        ]

settled-only :
    (first last : ℕ) (s : Site) (from to : Position) (final : Block) (t t' : Tables)
    (read : List (Text × Text))
    → Answers s
    → get s.sight.network t.cursors ≡ some from
    → settled (only first last s) from final t ≡ ok (t', read)
    → get s.sight.network t'.cursors ≡ some to
    → (first ≡ from.height + 1)
      × (last ≡ last_of s.width from.height final.height)
      × (to.height ≡ last)
unfolding settled only
settled-only first last s from to final t t' read honest k h there =
    let o = only first last s in
    let to_last = last_of s.width from.height final.height in
    elim (Result-cases (seen o.sight true (from.height + 1) to_last [] t.database)) [
      | inr (e, n) ↦ absurd (ground (arith, n))
      | inl (found, n) ↦ elim (Result-cases (read_to o to_last final)) [
        | inr (e, m) ↦ absurd (ground (arith, n, m))
        | inl (at, m) ↦ elim (Result-cases (write o (from.height + 1) to_last from at found t)) [
          | inr (e, w) ↦ absurd (ground (arith, n, m, w))
          | inl (u, w) ↦
              let (starts, ends) = seen-only first last (from.height + 1) to_last s [] t found n in
              let height = read_to-height o to_last final at honest m in
              let same : t' ≡ u = ground (arith, n, m, w, h) in
              let written = write-get o (from.height + 1) to_last from at found t u k w in
              ground (arith, same, written, there, height, starts, ends)
        ]
      ]
    ]

stood-get :
    (s : Site) (from : Position) (t t' : Tables) (read : List (Text × Text))
    → get s.sight.network t.cursors ≡ some from
    → stood s from t ≡ ok (t', read)
    → get s.sight.network t'.cursors ≡ some from
unfolding stood
stood-get s from t t' read h k =
    elim (Result-cases (advance s.sight.network from from s.now t.cursors)) [
      | inr (e, a) ↦ absurd (ground (arith, a))
      | inl (cursors, a) ↦
          let got = advance-get s.sight.network from from s.now t.cursors cursors h a in
          ground (arith, a, got)
    ]

-- The heights of a range that starts behind a position, and of what follows it.
joined :
    (first last from final : ℕ) (hs : List ℕ)
    → first ≡ from + 1
    → from ≤ last
    → last ≤ final
    → hs ≡ heights (last + 1) (final - last)
    → heights first (last + 1 - first) ++ hs ≡ heights (from + 1) (final - from)
joined first last from final hs starts low high rest =
    let size : last + 1 - first ≡ last - from = omega arith in
    let both = heights-append (from + 1) (last - from) (final - last) in
    let sizes : (last - from) + (final - last) ≡ final - from = omega arith in
    let start : from + 1 + (last - from) ≡ last + 1 = omega arith in
    ground (arith, starts, rest, both, size, sizes, start)

-- Rounds that each went well, as many as the gap takes at the width or more, from the position where the
-- network stands and on a chain that answers the block which it is asked for: between them they have read
-- each height behind the position up to the final block once, in order, and no other, and they end at
-- the final block.
pub rounds-heights :
    (s : Site) (final : Block) {n : ℕ} {hs : List ℕ} {from end : Position} {t u : Tables}
    → Answers s
    → get s.sight.network t.cursors ≡ some from
    → from.height ≤ final.height
    → final.height ≤ from.height + n * s.width
    → Rounds s final n hs from t end u
    → (hs ≡ heights (from.height + 1) (final.height - from.height)) × (end.height ≡ final.height)
unfolding heights
rounds-heights s final {from = from} honest h low enough none_more =
    let here : from.height ≡ final.height = omega arith in
    let gap : final.height - from.height ≡ 0 = omega arith in (rw gap refl, here)
rounds-heights s final {from = from} {t = t} honest h low enough
      (behind {n = n} {hs = hs} {to = to} {t' = t'} first last read less ran there rest) =
    let (starts, ends, at) = settled-only first last s from to final t t' read honest h ran there in
    let ends_at : to.height ≡ last = at in
    let (near, far, wide) = last_of-bounds s.width from.height final.height low in
    let (after, reached) =
      rounds-heights s final honest there (omega (arith, at, ends, far))
        (omega (arith, at, ends, nearer n s.width from.height final.height enough)) rest in
    (
      joined first last from.height final.height hs starts (omega (arith, ends, near))
          (omega (arith, ends, far)) (rw (← ends_at) after),
      reached,
    )
rounds-heights s final {from = from} {t = t} honest h low enough
      (level {t' = t'} read same ran rest) =
    rounds-heights s final honest (stood-get s from t t' read h ran) low (omega (arith, same)) rest
