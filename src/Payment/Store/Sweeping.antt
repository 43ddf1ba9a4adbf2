-- ===== src/Payment/Store/Sweeping.antt =====
-- What a round of the observer that read the finalised range leaves of the rows, of `Record`.
use sucopay.Prelude.{
  map, ℕ, ◌≡◌, refl, not, ◌++◌, Bool-cases, sym, ◌∙◌, inl, inr, Bool, true, false, List, [], ◌∷◌,
  Option, any, all, ok, arith, Result-cases, >>=-eq-ok,
}
use sucopay.Text.{Text, text_eq, text_eq_refl, text_eq→eq}
use sucopay.Payment.Aggregate.{Payment}
use sucopay.Payment.Evidence.{Transfer}
use sucopay.Payment.Store.{Database, ObservationRow}
use sucopay.Payment.Store.Observations.{
  seen_against_attempt, seen_against_refund, Seen, SeenRefund, Observation, is_observed,
  is_vanished, mark, span,
}
use sucopay.Payment.Store.Arrivals.{
  vanish_row, lost_rows, is_missing, vanish, record_each, arrived_each, txs_of, record_round,
  swept_away,
}
use sucopay.Payment.Store.Vanishing.{are_keyed}
use sucopay.Payment.Store.Recorded.{has_row, record_each-has_row}
use sucopay.Payment.Store.Recording.{
  taken_each-seen, arrived_each-seen, confirm_each-seen, record_round-are_keyed,
}

-- Transfers that all have rows, where those of their transactions keep theirs.
all-has_row {ℓ} :
    {A : Type ℓ} (f : A → Transfer) (network : Text) (txs : List Text)
    (rows rows' : List ObservationRow) (xs : List A)
    → ((t : Transfer)
        → any (text_eq t.tx) txs ≡ true
        → has_row network rows t ≡ true
        → has_row network rows' t ≡ true)
    → all (λ (x : A). any (text_eq (f x).tx) txs) xs ≡ true
    → all (λ (x : A). has_row network rows (f x)) xs ≡ true
    → all (λ (x : A). has_row network rows' (f x)) xs ≡ true
all-has_row f network txs rows rows' [] kept among h = refl
all-has_row f network txs rows rows' (x ∷ xs) kept among h =
    ground (arith, all-has_row f network txs rows rows' xs kept, kept (f x))

-- The transactions of what was seen are among those of the round.
among-more :
    {A : Type 0} (f : A → Text) (y : Text) (txs : List Text) (xs : List A)
    → all (λ (x : A). any (text_eq (f x)) txs) xs ≡ true
    → all (λ (x : A). any (text_eq (f x)) (y ∷ txs)) xs ≡ true
among-more f y txs [] h = refl
among-more f y txs (x ∷ xs) h = ground (arith, among-more f y txs xs)

among-map :
    {A : Type 0} (f : A → Text) (xs : List A) (more : List Text)
    → all (λ (x : A). any (text_eq (f x)) (map f xs ++ more)) xs ≡ true
among-map f [] more = refl
among-map f (x ∷ xs) more =
    ground
      (arith, text_eq_refl (f x), among-more f (f x) (map f xs ++ more) xs (among-map f xs more))

among-behind :
    {A : Type 0} (f : A → Text) (before txs : List Text) (xs : List A)
    → all (λ (x : A). any (text_eq (f x)) txs) xs ≡ true
    → all (λ (x : A). any (text_eq (f x)) (before ++ txs)) xs ≡ true
among-behind f [] txs xs h = h
among-behind f (y ∷ before) txs xs h =
    among-more f y (before ++ txs) xs (among-behind f before txs xs h)

among-all :
    {A : Type 0} (f : A → Text) (xs : List A)
    → all (λ (x : A). any (text_eq (f x)) (map f xs)) xs ≡ true
among-all f [] = refl
among-all f (x ∷ xs) =
    ground (arith, text_eq_refl (f x), among-more f (f x) (map f xs) xs (among-all f xs))

seen-has_row :
    (p : Transfer → Bool) (seen : List Seen)
    → all (λ (o : Observation). p o.transfer) (map seen_against_attempt seen)
      ≡ all (λ (s : Seen). p s.transfer) seen
unfolding seen_against_attempt
seen-has_row p [] = refl
seen-has_row p (s ∷ seen) = ground (arith, seen-has_row p seen)

sent-has_row :
    (p : Transfer → Bool) (sent : List SeenRefund)
    → all (λ (o : Observation). p o.transfer) (map seen_against_refund sent)
      ≡ all (λ (s : SeenRefund). p s.transfer) sent
unfolding seen_against_refund
sent-has_row p [] = refl
sent-has_row p (s ∷ sent) = ground (arith, sent-has_row p sent)

seen_stand :
    (seen : List Seen)
    → all (λ (s : Seen). not (is_vanished s.reason)) seen ≡ true
    → all (λ (o : Observation). not (is_vanished o.reason)) (map seen_against_attempt seen) ≡ true
unfolding seen_against_attempt
seen_stand [] h = refl
seen_stand (s ∷ seen) h = ground (arith, seen_stand seen)

sent_stand :
    (sent : List SeenRefund)
    → all (λ (s : SeenRefund). not (is_vanished s.reason)) sent ≡ true
    → all (λ (o : Observation). not (is_vanished o.reason)) (map seen_against_refund sent) ≡ true
unfolding seen_against_refund
sent_stand [] h = refl
sent_stand (s ∷ sent) h = ground (arith, sent_stand sent)

has_row-vanished :
    (network : Text) (low high : ℕ) (txs : List Text) (now : ℕ) (t : Transfer)
    (rows : List ObservationRow)
    → any (text_eq t.tx) txs ≡ true
    → has_row network rows t ≡ true
    → has_row network (mark (is_missing network low high txs) (vanish_row now) rows) t ≡ true
unfolding has_row mark vanish_row is_missing is_observed
has_row-vanished network low high txs now t [] among h = absurd (ground arith)
has_row-vanished network low high txs now t (row ∷ rows) among h =
    elim (Bool-cases (text_eq row.tx t.tx)) [
      | inr other ↦ ground (arith, other, has_row-vanished network low high txs now t rows among)
      | inl same ↦
          let here : any (λ tx. text_eq row.tx tx) txs ≡ true =
            rw (text_eq→eq row.tx t.tx same) among in
          ground (arith, here, has_row-vanished network low high txs now t rows among)
    ]

none_missing :
    (network : Text) (low high : ℕ) (txs : List Text) (now : ℕ) (rows : List ObservationRow)
    → any
        (is_missing network low high txs)
        (mark (is_missing network low high txs) (vanish_row now) rows)
      ≡ false
unfolding mark vanish_row is_missing is_vanished
none_missing network low high txs now [] = refl
none_missing network low high txs now (row ∷ rows) =
    ground (arith, none_missing network low high txs now rows)

vanish-swept :
    (clock : ℕ) (network : Text) (first last : ℕ) (txs : List Text) (now : ℕ) (d d' : Database)
    → vanish clock network first last txs now d ≡ ok d'
    → (any (is_missing network first last txs) d'.observations ≡ false)
      × ((t : Transfer)
          → any (text_eq t.tx) txs ≡ true
          → has_row network d.observations t ≡ true
          → has_row network d'.observations t ≡ true)
unfolding vanish span has_row
vanish-swept clock network first last txs now d d' h = elim (Result-cases (span first last)) [
  | inr (e, n) ↦ absurd (ground (arith, n))
  | inl ((low, high), n) ↦
      let test = is_missing network first last txs in
      let marked : Database = record d {
        observations = mark test (vanish_row now) d.observations;
      } in
      let left =
        taken_each-seen clock (lost_rows test d.observations) marked d' (ground (arith, n)) in
      (
        ground (arith, left, none_missing network first last txs now d.observations),
        λ t among there.
            ground (
              arith,
              left,
              has_row-vanished network first last txs now t d.observations among there,
            ),
      )
]

-- After a round of the observer that read a finalised range, and that gave no transfer for vanished,
-- each transfer that it saw has a row that stands, one for each network, key and transaction; and no row
-- of the range is left standing whose transaction the round did not see.
pub record_round-swept :
    (numeric : Text → Option ℕ) (told : Payment → Option Transfer → Text) (clock : ℕ)
    (network : Text) (first last : ℕ) (seen : List Seen) (sent : List SeenRefund) (now : ℕ)
    (d d' : Database)
    → record_round numeric told clock network first last true seen sent now d ≡ ok d'
    → are_keyed d.observations ≡ true
    → all (λ (s : Seen). not (is_vanished s.reason)) seen ≡ true
    → all (λ (s : SeenRefund). not (is_vanished s.reason)) sent ≡ true
    → (all (λ (s : Seen). has_row network d'.observations s.transfer) seen ≡ true)
      × (all (λ (s : SeenRefund). has_row network d'.observations s.transfer) sent ≡ true)
      × (are_keyed d'.observations ≡ true)
      × (any (is_missing network first last (txs_of seen sent)) d'.observations ≡ false)
unfolding record_round swept_away txs_of
record_round-swept numeric told clock network first last seen sent now d d' h k stand₁ stand₂ =
    let one_each =
      record_round-are_keyed numeric told clock network first last true seen sent now d d' h k in
    let (d₁, n₁, h₁) =
      >>=-eq-ok (record_each numeric network (map seen_against_attempt seen) true now d) _ h in
    let (d₂, n₂, h₂) =
      >>=-eq-ok (record_each numeric network (map seen_against_refund sent) true now d₁) _ h₁ in
    let (d₃, n₃, h₃) = >>=-eq-ok (swept_away clock network first last true seen sent now d₂) _ h₂ in
    let (d₄, n₄, h₄) = >>=-eq-ok (arrived_each clock seen d₃) _ h₃ in
    let (these, kept₁) =
      record_each-has_row numeric network (map seen_against_attempt seen) true now d d₁ n₁
        (seen_stand seen stand₁) in
    let (those, kept₂) =
      record_each-has_row numeric network (map seen_against_refund sent) true now d₁ d₂ n₂
        (sent_stand sent stand₂) in
    let (swept, kept₃) = vanish-swept clock network first last (txs_of seen sent) now d₂ d₃ n₃ in
    let txs = λ (s : SeenRefund). s.transfer.tx in
    let last_two : d'.observations ≡ d₃.observations =
      ground
        (arith, arrived_each-seen clock seen d₃ d₄ n₄, confirm_each-seen told seen [] d₄ d' h₄) in
    (
      rw last_two (
          all-has_row (λ (s : Seen). s.transfer) network (txs_of seen sent) d₁.observations
            d₃.observations seen (λ t among there. kept₃ t among (kept₂ t there))
            (among-map (λ (s : Seen). s.transfer.tx) seen (map txs sent))
            (sym (seen-has_row (has_row network d₁.observations) seen) ∙ these)),
      rw last_two (
          all-has_row (λ (s : SeenRefund). s.transfer) network (txs_of seen sent) d₂.observations
            d₃.observations sent kept₃
            (among-behind txs (map (λ (s : Seen). s.transfer.tx) seen) (map txs sent) sent
              (among-all txs sent))
            (sym (sent-has_row (has_row network d₂.observations) sent) ∙ those)),
      one_each,
      rw last_two swept,
    )
