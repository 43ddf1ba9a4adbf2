-- ===== src/Finality/Worker/Round.antt =====
-- internal/finality/worker.go: a round, over every recorded transfer that a network's endpoints have
-- yet to be asked about. An endpoint is its place in the configuration and, in a round, what it replies
-- about a key and a transaction.
use sucopay.Prelude.{
  ℕ, zero, suc, ◌-◌, Bool, true, false, ◌&&◌, List, [], ◌∷◌, map, Option, none, some, ltb, ◌==◌,
  if◌then◌else◌, is_empty, length, Result, ok, err,
}
use sucopay.Text.{Text, text_eq}
use sucopay.Payment.Store.{Database, StoreError}
use sucopay.Payment.Store.Observations.{disagree, agree}
use sucopay.Payment.Store.Queries.{Place, no_place, Candidate, candidates}
use sucopay.Payment.Store.Dues.{RefundCandidate, refund_candidates}
use sucopay.Observe.Cursor.{Row}
use sucopay.Finality.Ask.{
  disagreed, unanswered, verdict_eq, Answers, Endpoint, Context, Recorded, AskError, ask,
}
use sucopay.Finality.Worker.{Setting, Standing, work, Answer, next_answer, per_round, decided}
use sucopay.Finality.Worker.Sweep.{Swept, swept}

-- `recorded`, and a map from it.
pub record Entry : Type 0 where
  pub key : Text
  pub tx : Text
  pub answer : Answer

unfoldable pub answer_of : Text → Text → List Entry → Option Answer
answer_of key tx [] = none
answer_of key tx (e ∷ es) =
    let rest = answer_of key tx es in
    if text_eq e.key key && text_eq e.tx tx then some e.answer else rest

unfoldable pub put_answer : Text → Text → Answer → List Entry → List Entry
put_answer key tx a es = record { key = key; tx = tx; answer = a } ∷ es

-- What the endpoints of a network reply in a round, by the transfer and the endpoint's place, and
-- when the caller's context ends.
pub record Replies : Type 0 where
  pub endpoint : Text → Text → ℕ → Endpoint
  pub context : Text → Text → Context

-- The errors of `round`.
pub data RoundError : Type 0 where
  few_misses few_agreements : ℕ → RoundError
  store : StoreError → RoundError
  asking : AskError → RoundError

-- What the loop over the transfers has come to. The answers of the pass are `pass`, those of the last
-- pass do not change in it.
pub record Going : Type 0 where
  pub database : Database
  pub pass : List Entry
  pub places : List ℕ
  pub short : Bool

-- `slices.Delete(asking, i, i+1)`, for each place from the last.
unfoldable pub delete {ℓ} : {A : Type ℓ} → ℕ → List A → List A
delete i [] = []
delete zero (x ∷ xs) = xs
delete (suc i) (x ∷ xs) = x ∷ delete i xs

unfoldable pub delete_each {ℓ} : {A : Type ℓ} → List ℕ → List A → List A
unfolding delete
delete_each [] xs = xs
delete_each (i ∷ is) xs = delete i (delete_each is xs)

abbrev pub recorded_of : Standing → Recorded
recorded_of c = record { tx = c.tx; height = c.height; hash = c.hash }

abbrev unheard : Answers
unheard = record { verdict = unanswered; answered = 0; agreed = 0; silent = [] }

-- What the endpoints that are left say of a transfer.
unfoldable pub put_to : Setting → Replies → List ℕ → Standing → Result AskError Answers
unfolding ask
put_to w r places c =
    if is_empty places
    then ok unheard
    else ask (r.context c.key c.tx) (map (r.endpoint c.key c.tx) places) w.agreements
        (recorded_of c)

-- `Disagree` and `Agree`, by the answer before and the one now.
unfoldable pub noted : Setting → Standing → Option Answer → Answer → Database → Database
unfolding verdict_eq disagree agree
noted w c before now d =
    if verdict_eq now.verdict disagreed
    then (if now.rounds == 1 then disagree w.network c.key c.tx w.now d else d)
    else elim before [
      | none ↦ d
      | some b ↦ if verdict_eq b.verdict disagreed then agree w.network c.key c.tx d else d
    ]

-- A transfer that is not asked about in this pass.
unfoldable pub skipped : Option Answer → Bool
unfolding verdict_eq
skipped none = false
skipped (some b) = verdict_eq b.verdict disagreed && ltb 0 b.skip

unfoldable pub one_less : Answer → Answer
one_less a = record a { skip = a.skip - 1 }

-- What a round does once a transfer has been answered about.
unfoldable pub answered_about :
    Setting → Standing → Option Answer → Answer → Going → Going × Option RoundError
unfolding noted put_answer decided
answered_about w c before now g =
    let d = noted w c before now g.database in
    let pass = put_answer c.key c.tx now g.pass in
    elim (decided w c now d) [
      | err e ↦ (record g { database = d; pass = pass }, some (store e))
      | ok d' ↦ (record g { database = d'; pass = pass }, none)
    ]

unfoldable pub kept : Standing → Option Answer → List Entry → List Entry
unfolding put_answer
kept c none pass = pass
kept c (some b) pass = put_answer c.key c.tx b pass

unfoldable pub heard_of :
    Setting → Standing → Option Answer → Answers → Going → Going × Option RoundError
unfolding verdict_eq kept next_answer answered_about delete_each
heard_of w c before said g =
    let g' : Going = record g { places = delete_each said.silent g.places } in
    if verdict_eq said.verdict unanswered
    then (record g' { short = true; pass = kept c before g.pass }, none)
    else answered_about w c before (next_answer before said.verdict) g'

-- The body of the loop of `round`, with the answers of the last pass.
unfoldable pub one_candidate :
    Setting → Replies → List Entry → Standing → Going → Going × Option RoundError
unfolding answer_of skipped kept one_less put_to heard_of
one_candidate w r answers c g = elim (skipped (answer_of c.key c.tx answers)) [
  | true ↦ (
    record g {
      pass = elim (answer_of c.key c.tx answers) [
        | none ↦ g.pass
        | some b ↦ put_answer c.key c.tx (one_less b) g.pass
      ];
    },
    none,
  )
  | false ↦ elim (put_to w r g.places c) [
    | err e ↦ (g, some (asking e))
    | ok said ↦ heard_of w c (answer_of c.key c.tx answers) said g
  ]
]

unfoldable pub each_candidate :
    Setting → Replies → List Entry → List Standing → Going → Going × Option RoundError
unfolding one_candidate
each_candidate w r answers [] g = (g, none)
each_candidate w r answers (c ∷ cs) g =
    let (g', failed) = one_candidate w r answers c g in
    elim failed [ some e ↦ (g', some e) | none ↦ each_candidate w r answers cs g' ]

-- What a worker carries from one round to the next.
pub record Memory : Type 0 where
  pub answers : List Entry
  pub pass : List Entry
  pub from : Place
  pub back : Place

-- Where the next round goes on: after the last row of a full page, and at the start otherwise.
unfoldable pub resume : List Standing → Place
resume [] = no_place
resume (c ∷ []) = record { block_height = c.height; tx = c.tx }
resume (c ∷ d ∷ cs) = resume (d ∷ cs)

unfoldable pub next_place : List Standing → Place
unfolding resume
next_place cs = if ltb (length cs) per_round then no_place else resume cs

-- The memory after a round that asked about what it read.
unfoldable pub turned : List Standing → List Standing → List Entry → Memory → Memory
unfolding next_place
turned cs rs pass m =
    let m' : Memory = record m { pass = pass; from = next_place cs; back = next_place rs } in
    if ltb (length cs) per_round && ltb (length rs) per_round
    then record m' { answers = pass; pass = [] }
    else m'

-- Everything that a round leaves: the memory, the database, and whether it was short or failed.
pub record Round : Type 0 where
  pub memory : Memory
  pub database : Database
  pub result : Result RoundError Bool

unfoldable pub finished : Memory → Bool → Swept → Round
finished m short s = record {
  memory = m;
  database = s.database;
  result = elim s.failed [ none ↦ ok short | some e ↦ err (store e) ];
}

-- The places of that many endpoints.
unfoldable pub places_from : ℕ → ℕ → List ℕ
places_from i zero = []
places_from i (suc n) = i ∷ places_from (suc i) n

unfoldable pub asked_about :
    Setting
    → Replies
    → List Row
    → List Candidate
    → List RefundCandidate
    → ℕ
    → Memory
    → Database
    → Round
unfolding work each_candidate turned finished swept places_from
asked_about w r cursors cs rs endpoints m d =
    let start : Going = record {
      database = d;
      pass = m.pass;
      places = places_from 0 endpoints;
      short = false;
    } in
    let (g, failed) = each_candidate w r m.answers (work cs rs) start in
    elim failed [
      | some e ↦ record {
        memory = record m { pass = g.pass };
        database = g.database;
        result = err e;
      }
      | none ↦
          finished (turned (work cs []) (work [] rs) g.pass m) g.short (swept w cursors g.database)
    ]

refused : Memory → Database → RoundError → Round
refused m d e = record { memory = m; database = d; result = err e }

-- `round`, of a network with a number of endpoints
unfoldable pub round : Setting → Replies → List Row → ℕ → Memory → Database → Round
unfolding candidates refund_candidates asked_about refused
round w r cursors endpoints m d =
    if ltb w.misses 1
    then refused m d (few_misses w.misses)
    else if ltb w.agreements 1
    then refused m d (few_agreements w.agreements)
    else elim (candidates w.network m.from per_round d) [
      | err e ↦ refused m d (store e)
      | ok cs ↦ elim (refund_candidates w.network m.back per_round d) [
        | err e ↦ refused m d (store e)
        | ok rs ↦ asked_about w r cursors cs rs endpoints m d
      ]
    ]
