-- ===== src/Finality/Ask/Decision.antt =====
-- When `Ask` comes to a verdict.
use sucopay.Prelude.{
  ℕ, suc, ◌+◌, ◌≤◌, ◌<◌, ◌≡◌, ◌≢◌, ◌∙◌, refl, ◌==◌, ◌⊎◌, inl, inr, false, List, [], ◌∷◌, ◌++◌, none,
  some, ok, arith, Bool-cases, if◌then◌else◌,
}
use sucopay.Finality.Ask.{
  Recorded, Verdict, Answers, Endpoint, Context, asked, ask_from, ask, no_answers, counted,
}
use sucopay.Finality.Ask.Agreement.{sayings, says_it, verdict_eq_refl}

-- An endpoint that does not answer, or says `v`.
abbrev pub SaysOnly : Verdict → Recorded → List Endpoint → Type 0
SaysOnly v r [] = Unit
SaysOnly v r (e ∷ es) = ((asked e r ≡ none) ⊎ (asked e r ≡ some v)) × SaysOnly v r es

-- A context that lasts.
abbrev pub Lasts : Context → Type 0
Lasts c = (i : ℕ) → (c.ended_before i ≡ false) × (c.ended_after i ≡ false)

counted-verdict :
    (a : Answers) (v : Verdict) → (a.answered ≡ 0) ⊎ (a.verdict ≡ v) → (counted a v).verdict ≡ v
unfolding counted
counted-verdict a v h = ground arith

counted-few :
    (a : Answers) (v : Verdict) (need : ℕ)
    → a.agreed < need
    → (a.agreed + 1 == need) ≡ false
    → (counted a v).agreed < need
unfolding counted
counted-few a v need h n = ground arith

module _ (c : Context) (lasts : Lasts c) (need : ℕ) (r : Recorded) (v : Verdict) where
  next_silent :
      (i : ℕ) (a : Answers) (e : Endpoint) (es : List Endpoint)
      → asked e r ≡ none
      → ask_from c need r i a (e ∷ es)
        ≡ ask_from c need r (suc i) (record a { silent = a.silent ++ i ∷ [] }) es
  unfolding ask_from
  next_silent i a e es n = ground (arith, (lasts i).0, (lasts i).1)

  next_said :
      (i : ℕ) (a : Answers) (e : Endpoint) (es : List Endpoint)
      → asked e r ≡ some v
      → (a.answered ≡ 0) ⊎ (a.verdict ≡ v)
      → ask_from c need r i a (e ∷ es) ≡ (
          if a.agreed + 1 == need
          then ok (counted a v)
          else ask_from c need r (suc i) (counted a v) es)
  unfolding ask_from
  next_said i a e es n fits = ground (arith, (lasts i).0, verdict_eq_refl v)

  ask_from_decides :
      (i : ℕ) (a : Answers) (es : List Endpoint)
      → a.agreed < need
      → (a.answered ≡ 0) ⊎ (a.verdict ≡ v)
      → SaysOnly v r es
      → need ≤ a.agreed + sayings v r es
      → (b : Answers) × (ask_from c need r i a es ≡ ok b) × (b.verdict ≡ v)
  unfolding sayings says_it counted
  ask_from_decides i a [] few fits only enough = absurd (omega arith)
  ask_from_decides i a (e ∷ es) few fits (inl n, only) enough =
      let a' = record a { silent = a.silent ++ i ∷ [] } in
      let (b, run, is) = ask_from_decides (suc i) a' es few fits only (ground arith) in
      (b, next_silent i a e es n ∙ run, is)
  ask_from_decides i a (e ∷ es) few fits (inr n, only) enough =
      let step = next_said i a e es n fits in
      elim (Bool-cases (a.agreed + 1 == need)) [
        | inl last ↦ (counted a v, ground arith, counted-verdict a v fits)
        | inr more ↦
            let (b, run, is) =
              ask_from_decides (suc i) (counted a v) es (counted-few a v need few more)
                (inr (counted-verdict a v fits)) only (ground (arith, verdict_eq_refl v)) in
            (b, ground arith, is)
      ]

-- Where no endpoint says anything but `v`, and as many as agreement takes do say it, `Ask` answers
-- `v`, whichever endpoints are silent, as long as the caller waits.
pub ask_decides :
    (c : Context) (es : List Endpoint) (need : ℕ) (r : Recorded) (v : Verdict)
    → Lasts c
    → need ≢ 0
    → SaysOnly v r es
    → need ≤ sayings v r es
    → (b : Answers) × (ask c es need r ≡ ok b) × (b.verdict ≡ v)
unfolding ask sayings
ask_decides c [] need r v lasts n only enough = absurd (ground arith)
ask_decides c (e ∷ es) need r v lasts n only enough =
    let (b, run, is) =
      ask_from_decides c lasts need r v 0 no_answers (e ∷ es) (omega arith) (inl refl) only
        (omega arith) in
    (b, ground arith, is)
