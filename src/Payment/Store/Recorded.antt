-- ===== src/Payment/Store/Recorded.antt =====
-- What `Record` has recorded stands in a row.
use sucopay.Prelude.{
  ℕ, ◌≡◌, refl, Bool, true, false, not, ◌&&◌, ◌||◌, List, [], ◌∷◌, Option, any, all, ok, arith,
  >>=-eq-ok, inl, inr, Bool-cases,
}
use sucopay.Text.{Text, text_eq_refl, text_eq→eq}
use sucopay.Payment.Evidence.{Transfer}
use sucopay.Payment.Store.{Database, ObservationRow}
use sucopay.Payment.Store.Observations.{
  Observation, is_observed, is_vanished, rewritten, upsert, record_one,
}
use sucopay.Payment.Store.Arrivals.{record_each}
use sucopay.Payment.Store.Recording.{record_one-upsert}

-- A row of the network for a transfer, which has not vanished.
unfoldable pub has_row : Text → List ObservationRow → Transfer → Bool
unfolding is_observed is_vanished
has_row network rows t =
    any (λ row. is_observed network t.key t.tx row && not (is_vanished row.reason)) rows

same_key :
    (network key tx : Text) (x y : ObservationRow)
    → is_observed x.network x.key x.tx y ≡ true
    → is_observed network key tx y ≡ is_observed network key tx x
unfolding is_observed
same_key network key tx x y h =
    let e : y.network ≡ x.network = text_eq→eq y.network x.network (ground (arith, h)) in
    let f : y.key ≡ x.key = text_eq→eq y.key x.key (ground (arith, h)) in
    let g : y.tx ≡ x.tx = text_eq→eq y.tx x.tx (ground (arith, h)) in rw (e, f, g) refl

-- A row that replaces one of its key, or that is not there.
replaced : (o₁ o₂ v₁ rest : Bool) → o₂ ≡ o₁ → (o₁ || rest) ≡ (o₁ || (o₂ && v₁ || rest))
replaced true true v rest h = refl
replaced false false v rest h = refl
replaced true false v rest h = cc
replaced false true v rest h = cc

passed_over : (a o rest rest' : Bool) → rest' ≡ (o || rest) → (a || rest') ≡ (o || (a || rest))
passed_over true true rest rest' h = refl
passed_over true false rest rest' h = refl
passed_over false o rest rest' h = h

rewritten_row :
    (network : Text) (t : Transfer) (new row : ObservationRow)
    → is_vanished new.reason ≡ false
    → (is_observed network t.key t.tx (rewritten row new)
        && not (is_vanished (rewritten row new).reason))
      ≡ is_observed network t.key t.tx new
unfolding rewritten is_observed
rewritten_row network t new row stands = ground (arith, stands)

has_row-upsert :
    (network : Text) (t : Transfer) (new : ObservationRow) (rows : List ObservationRow)
    → is_vanished new.reason ≡ false
    → has_row network (upsert new rows) t
      ≡ (is_observed network t.key t.tx new || has_row network rows t)
unfolding has_row upsert
has_row-upsert network t new [] stands = ground (arith, stands)
has_row-upsert network t new (row ∷ rows) stands =
    elim (Bool-cases (is_observed new.network new.key new.tx row)) [
      | inl met ↦
          let same = same_key network t.key t.tx new row met in
          let written = rewritten_row network t new row stands in
          rw met (rw written (replaced _ _ _ _ same))
      | inr other ↦ rw other (passed_over _ _ _ _ (has_row-upsert network t new rows stands))
    ]

record_one-has_row :
    (numeric : Text → Option ℕ) (network : Text) (o : Observation) (final : Bool) (now : ℕ)
    (d d' : Database)
    → record_one numeric network o final now d ≡ ok d'
    → is_vanished o.reason ≡ false
    → (has_row network d'.observations o.transfer ≡ true)
      × ((t : Transfer)
          → has_row network d.observations t ≡ true
          → has_row network d'.observations t ≡ true)
unfolding is_observed
record_one-has_row numeric network o final now d d' h stands =
    let (new, e, of_network, of_key, of_tx, of_reason) =
      record_one-upsert numeric network o final now d d' h in
    let still : is_vanished new.reason ≡ false = rw of_reason stands in
    (
      ground (
        arith,
        e,
        of_network,
        of_key,
        of_tx,
        has_row-upsert network o.transfer new d.observations still,
        text_eq_refl network,
        text_eq_refl o.transfer.key,
        text_eq_refl o.transfer.tx,
      ),
      λ t there. ground (arith, e, has_row-upsert network t new d.observations still, there),
    )

pub record_each-has_row :
    (numeric : Text → Option ℕ) (network : Text) (os : List Observation) (final : Bool) (now : ℕ)
    (d d' : Database)
    → record_each numeric network os final now d ≡ ok d'
    → all (λ (o : Observation). not (is_vanished o.reason)) os ≡ true
    → (all (λ (o : Observation). has_row network d'.observations o.transfer) os ≡ true)
      × ((t : Transfer)
          → has_row network d.observations t ≡ true
          → has_row network d'.observations t ≡ true)
unfolding record_each
record_each-has_row numeric network [] final now d d' h stand =
    (refl, λ t there. ground (arith, there))
record_each-has_row numeric network (o ∷ rest) final now d d' h stand =
    let (m, first, next) =
      >>=-eq-ok (record_one numeric network o final now d)
        (record_each numeric network rest final now) h in
    let (this, kept) =
      record_one-has_row numeric network o final now d m first (ground (arith, stand)) in
    let (others, held) =
      record_each-has_row numeric network rest final now m d' next (ground (arith, stand)) in
    (ground (arith, others, held o.transfer this), λ t there. held t (kept t there))
