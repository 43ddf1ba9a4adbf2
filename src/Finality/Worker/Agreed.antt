-- ===== src/Finality/Worker/Agreed.antt =====
-- What a round tells of a payment or a refund, and what the endpoints said.
use sucopay.Prelude.{
  ℕ, ◌≤◌, ◌≡◌, refl, ◌⊎◌, inl, inr, false, List, map, Option, ltb, is_empty, ok, arith,
  Result-cases, Bool-cases,
}
use sucopay.Payment.Store.{Database}
use sucopay.Payment.Store.Backed.{status_at}
use sucopay.Payment.Store.Quiet.{IsQuiet, vanish_transfer-IsQuiet}
use sucopay.Payment.Store.Observations.{disagree, agree}
use sucopay.Finality.Ask.{final, gone, unanswered, verdict_eq, Answers}
use sucopay.Finality.Ask.Agreement.{sayings, ask_agreement}
use sucopay.Finality.Worker.{Setting, Standing, Answer, next_answer, decided}
use sucopay.Finality.Worker.Round.{
  Replies, Entry, Going, recorded_of, put_to, noted, answer_of, skipped, heard_of, delete_each,
  answered_about, one_candidate,
}

abbrev quiet_refl : (d : Database) → IsQuiet d d
quiet_refl d = record { told = refl; refunds = refl; statuses = λ a i. refl }

-- Only a final transfer is told of.
decided-IsQuiet :
    (w : Setting) (c : Standing) (a : Answer) (d d' : Database)
    → decided w c a d ≡ ok d'
    → verdict_eq a.verdict final ≡ false
    → IsQuiet d d'
unfolding decided verdict_eq
decided-IsQuiet w c a d d' h k = elim (Bool-cases (verdict_eq a.verdict gone)) [
  | inr other ↦
      let same : d' ≡ d = ground (arith, other) in
      record { told = ground arith; refunds = ground arith; statuses = λ b j. ground arith }
  | inl went ↦ elim (Bool-cases (ltb a.rounds w.misses)) [
    | inl early ↦
        let same : d' ≡ d = ground (arith, went, early) in
        record { told = ground arith; refunds = ground arith; statuses = λ b j. ground arith }
    | inr late ↦
        vanish_transfer-IsQuiet w.clock w.network c.key c.tx w.now d d' (ground (arith, went, late))
  ]
]

noted-IsQuiet :
    (w : Setting) (c : Standing) (before : Option Answer) (a : Answer) (d : Database)
    → IsQuiet d (noted w c before a d)
unfolding noted disagree agree status_at
noted-IsQuiet w c before a d = record {
  told = ground arith;
  refunds = ground arith;
  statuses = λ b j. ground arith;
}

quiet_trans : (d e f : Database) → IsQuiet d e → IsQuiet e f → IsQuiet d f
quiet_trans d e f p q = record {
  told = ground (arith, p.told, q.told);
  refunds = ground (arith, p.refunds, q.refunds);
  statuses = λ a i. ground (arith, p.statuses a i, q.statuses a i);
}

answered_about-IsQuiet :
    (w : Setting) (c : Standing) (before : Option Answer) (a : Answer) (g : Going)
    → verdict_eq a.verdict final ≡ false
    → IsQuiet g.database (answered_about w c before a g).0.database
unfolding answered_about
answered_about-IsQuiet w c before a g k =
    let first = noted-IsQuiet w c before a g.database in
    elim (Result-cases (decided w c a (noted w c before a g.database))) [
      | inr (e, n) ↦
          let same : (answered_about w c before a g).0.database ≡ noted w c before a g.database =
            ground (arith, n) in
          rw same first
      | inl (d', n) ↦
          let same : (answered_about w c before a g).0.database ≡ d' = ground (arith, n) in
          rw same (
            quiet_trans g.database (noted w c before a g.database) d' first
              (decided-IsQuiet w c a (noted w c before a g.database) d' n k))
    ]

-- How many of the endpoints that are left say that a transfer is final.
abbrev pub confirmations : Replies → List ℕ → Standing → ℕ
confirmations r places c = sayings final (recorded_of c) (map (r.endpoint c.key c.tx) places)

heard_of-IsQuiet :
    (w : Setting) (c : Standing) (before : Option Answer) (said : Answers) (g : Going)
    → verdict_eq said.verdict final ≡ false
    → IsQuiet g.database (heard_of w c before said g).0.database
unfolding heard_of next_answer
heard_of-IsQuiet w c before said g k = elim (Bool-cases (verdict_eq said.verdict unanswered)) [
  | inl un ↦
      let same : (heard_of w c before said g).0.database ≡ g.database = ground (arith, un) in
      rw same (quiet_refl g.database)
  | inr given ↦ rw given (
      answered_about-IsQuiet w c before (next_answer before said.verdict)
        (record g { places = delete_each said.silent g.places }) (ground (arith, k)))
]

-- A final verdict is the word of as many endpoints as have to agree.
put_to-confirmations :
    (w : Setting) (r : Replies) (places : List ℕ) (c : Standing) (said : Answers)
    → put_to w r places c ≡ ok said
    → said.verdict ≡ final
    → w.agreements ≤ confirmations r places c
unfolding put_to
put_to-confirmations w r places c said h k =
    let asked =
      ask_agreement (r.context c.key c.tx) (map (r.endpoint c.key c.tx) places) w.agreements
        (recorded_of c) said in
    elim (Bool-cases (is_empty places)) [
      | inl none_left ↦ absurd (ground (arith, none_left))
      | inr some_left ↦
          let (agreed, answered, enough) = asked (ground (arith, some_left)) (rw k refl) in
          rw (← k) enough
    ]

-- One transfer of a round: either nothing is told, so that
-- no event is written, no refund moves and no payment changes its status, or as many of the endpoints
-- that the round still asks as have to agree said that this very transfer is final.
pub one_candidate-agreed :
    (w : Setting) (r : Replies) (answers : List Entry) (c : Standing) (g : Going)
    → IsQuiet g.database (one_candidate w r answers c g).0.database
      ⊎ (w.agreements ≤ confirmations r g.places c)
unfolding one_candidate verdict_eq
one_candidate-agreed w r answers c g = elim (Bool-cases (skipped (answer_of c.key c.tx answers))) [
  | inl skip ↦
      let same : (one_candidate w r answers c g).0.database ≡ g.database = ground (arith, skip) in
      inl (rw same (quiet_refl g.database))
  | inr due ↦ elim (Result-cases (put_to w r g.places c)) [
    | inr (e, n) ↦
        let same : (one_candidate w r answers c g).0.database ≡ g.database =
          ground (arith, due, n) in
        inl (rw same (quiet_refl g.database))
    | inl (said, n) ↦
        let before = answer_of c.key c.tx answers in
        let same : one_candidate w r answers c g ≡ heard_of w c before said g =
          ground (arith, due, n) in
        elim (Bool-cases (verdict_eq said.verdict final)) [
          | inr other ↦ inl (rw same (heard_of-IsQuiet w c before said g other))
          | inl is_final ↦
              inr (put_to-confirmations w r g.places c said n (ground (arith, is_final)))
        ]
  ]
]
