-- ===== src/Finality/Ask.antt =====
-- internal/finality/finality.go: putting a recorded transfer to the endpoints of a network. An
-- endpoint is what it answers while one transfer is asked about.
pub mod Agreement
pub mod Decision
use sucopay.Prelude.{
  ℕ, suc, ◌+◌, Bool, true, false, not, ◌&&◌, ◌||◌, List, [], ◌∷◌, ◌++◌, Option, none, some, ltb,
  ◌==◌, if◌then◌else◌, is_empty, Result, ok, err,
}
use sucopay.Text.{Text, text_eq}

-- `Recorded`
pub record Recorded : Type 0 where
  pub tx : Text
  pub height : ℕ
  pub hash : Text

-- `Verdict`, and the empty one that `Answers` begins with.
pub data Verdict : Type 0 where
  unset final waiting elsewhere gone disagreed unanswered : Verdict

-- `==` on verdicts.
unfoldable pub verdict_eq : Verdict → Verdict → Bool
verdict_eq unset unset = true
verdict_eq final final = true
verdict_eq waiting waiting = true
verdict_eq elsewhere elsewhere = true
verdict_eq gone gone = true
verdict_eq disagreed disagreed = true
verdict_eq unanswered unanswered = true
verdict_eq _ _ = false

-- `Answers`
pub record Answers : Type 0 where
  pub verdict : Verdict
  pub answered : ℕ
  pub agreed : ℕ
  pub silent : List ℕ

-- The block that a transfer of a receipt is in.
pub record Block : Type 0 where
  pub height : ℕ
  pub hash : Text

-- The error that comes beside a receipt's transfers, if one does.
pub data ReceiptError : Type 0 where
  no_error no_transaction failed : ReceiptError

-- What `Receipt` of one chain.Chain answers, by the blocks of the transfers, and the height of the
-- final block that `Head` answers, or none when it fails.
pub record Endpoint : Type 0 where
  pub receipt : Text → List Block × ReceiptError
  pub final_height : Option ℕ

-- `settled`
unfoldable pub settled : Endpoint → ℕ → Verdict → Option Verdict
settled e height then_ = elim e.final_height [
  | none ↦ none
  | some head ↦ some (if ltb head height then waiting else then_)
]

carried_verdict : Endpoint → Recorded → List Block → Option Verdict
unfolding settled
carried_verdict e r [] = settled e r.height gone
carried_verdict e r (at ∷ _) =
    if not (at.height == r.height) || not (text_eq at.hash r.hash)
    then some elsewhere
    else settled e at.height final

receipt_verdict : Endpoint → Recorded → List Block × ReceiptError → Option Verdict
unfolding carried_verdict
receipt_verdict e r (carried, failed) = none
receipt_verdict e r (carried, no_error) = carried_verdict e r carried
receipt_verdict e r (carried, no_transaction) = carried_verdict e r carried

-- `asked`; an endpoint that did not answer is `none`
unfoldable pub asked : Endpoint → Recorded → Option Verdict
unfolding receipt_verdict
asked e r = receipt_verdict e r (e.receipt r.tx)

-- Whether the caller's context has ended before an endpoint is asked, and after it failed to answer,
-- by the endpoint's place.
pub record Context : Type 0 where
  pub ended_before : ℕ → Bool
  pub ended_after : ℕ → Bool

-- The errors of `Ask`.
pub data AskError : Type 0 where
  needs_none no_endpoint ended : AskError

-- What one round of the loop comes to: an answer of `Ask`, or the answers so far.
pub data Step : Type 0 where
  stop : Result AskError Answers → Step
  go : Answers → Step

-- One more answer that says what the others said.
counted : Answers → Verdict → Answers
counted a said = record a {
  verdict = if a.answered + 1 == 1 then said else a.verdict;
  answered = a.answered + 1;
  agreed = a.agreed + 1;
}

-- The counting of an answer.
count_answer : ℕ → Answers → Verdict → Step
unfolding verdict_eq counted
count_answer need a said =
    if not (a.answered + 1 == 1) && not (verdict_eq said a.verdict)
    then stop (
        ok (record {
          verdict = disagreed;
          answered = a.answered + 1;
          agreed = 0;
          silent = a.silent;
        }))
    else if a.agreed + 1 == need
    then stop (ok (counted a said))
    else go (counted a said)

heard : Context → ℕ → ℕ → Answers → Option Verdict → Step
unfolding count_answer
heard c need i a none =
    if c.ended_after i then stop (err ended) else go (record a { silent = a.silent ++ i ∷ [] })
heard c need i a (some said) = count_answer need a said

-- The loop of `Ask`, at the endpoint of place `i`.
unfoldable pub ask_from :
    Context → ℕ → Recorded → ℕ → Answers → List Endpoint → Result AskError Answers
unfolding heard
ask_from c need r i a [] = ok (record a { verdict = unanswered })
ask_from c need r i a (e ∷ es) =
    if c.ended_before i then err ended else elim (heard c need i a (asked e r)) [
      | stop answer ↦ answer
      | go a' ↦ ask_from c need r (suc i) a' es
    ]

abbrev pub no_answers : Answers
no_answers = record { verdict = unset; answered = 0; agreed = 0; silent = [] }

-- `Ask`
unfoldable pub ask : Context → List Endpoint → ℕ → Recorded → Result AskError Answers
ask c endpoints need r =
    if need == 0
    then err needs_none
    else if is_empty endpoints
    then err no_endpoint
    else ask_from c need r 0 no_answers endpoints
