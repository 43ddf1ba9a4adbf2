-- ===== src/Finality/Ask/Agreement.antt =====
-- What a verdict of `Ask` rests on.
use sucopay.Prelude.{
  ℕ, suc, ◌+◌, ◌≤◌, ◌<◌, ◌≡◌, ◌≢◌, ◌⊎◌, inl, inr, Bool, true, false, List, [], ◌∷◌, ◌++◌, Option,
  none, some, ok, arith, Option-cases, if◌then◌else◌,
}
use sucopay.Finality.Ask.{
  Recorded, Verdict, final, waiting, elsewhere, gone, disagreed, verdict_eq, Answers, Endpoint,
  Context, asked, ask_from, ask, no_answers, counted,
}

-- A verdict that something may be settled from: one that an endpoint gives.
abbrev pub is_given : Verdict → Bool
is_given final = true
is_given waiting = true
is_given elsewhere = true
is_given gone = true
is_given _ = false

asked-is_given :
    (e : Endpoint) (r : Recorded) (v : Verdict) → asked e r ≡ some v → is_given v ≡ true
unfolding asked
asked-is_given e r v h = ground arith

unfoldable pub says_it : Option Verdict → Verdict → Bool
unfolding verdict_eq
says_it none v = false
says_it (some said) v = verdict_eq said v

-- How many of some endpoints say a verdict of a recorded transfer.
unfoldable pub sayings : Verdict → Recorded → List Endpoint → ℕ
unfolding says_it
sayings v r [] = 0
sayings v r (e ∷ es) = (if says_it (asked e r) v then 1 else 0) + sayings v r es

-- The answers of a loop that goes on: the endpoints that answered agree.
record IsUnanimous (need : ℕ) (a : Answers) : Type 0 where
  agree : a.agreed ≡ a.answered
  few : a.agreed < need
  said : a.answered ≢ 0 → is_given a.verdict ≡ true

pub verdict_eq_refl : (v : Verdict) → verdict_eq v v ≡ true
unfolding verdict_eq
verdict_eq_refl v = ground arith

verdict_eq→eq : (v w : Verdict) → verdict_eq v w ≡ true → v ≡ w
unfolding verdict_eq
verdict_eq→eq v w h = ground arith

counted-IsUnanimous :
    (need : ℕ) (a : Answers) (said : Verdict)
    → IsUnanimous need a
    → is_given said ≡ true
    → a.agreed + 1 ≢ need
    → IsUnanimous need (counted a said)
unfolding counted
counted-IsUnanimous need a said u g n = ground arith

-- What an answer that ends the asking says of the ones before it.
record Ends (need : ℕ) (a b : Answers) (left : ℕ) : Type 0 where
  agreed : b.agreed ≡ need
  answered : b.answered ≡ need
  continues : (a.answered ≡ 0) ⊎ (a.verdict ≡ b.verdict)
  enough : need ≤ a.agreed + left

skipped :
    {need : ℕ} (a : Answers)
    → IsUnanimous need a
    → (i : ℕ) → IsUnanimous need (record a { silent = a.silent ++ i ∷ [] })
skipped a u i = record { agree = u.agree; few = u.few; said = u.said }

module _ (c : Context) (need : ℕ) (r : Recorded) where
  ask_from-silent :
      (i : ℕ) (a b : Answers) (e : Endpoint) (es : List Endpoint)
      → asked e r ≡ none
      → ask_from c need r i a (e ∷ es) ≡ ok b
      → ask_from c need r (suc i) (record a { silent = a.silent ++ i ∷ [] }) es ≡ ok b
  unfolding ask_from
  ask_from-silent i a b e es n h = ground arith

  -- An endpoint that answered: the others said something else, or the asking ends here, or it goes on.
  ask_from-said :
      (i : ℕ) (a b : Answers) (e : Endpoint) (es : List Endpoint) (said : Verdict)
      → asked e r ≡ some said
      → ask_from c need r i a (e ∷ es) ≡ ok b
      → (b.verdict ≡ disagreed)
        ⊎ (((a.answered ≡ 0) ⊎ (verdict_eq said a.verdict ≡ true))
            × (((a.agreed + 1 ≡ need) × (b ≡ counted a said))
                ⊎ ((a.agreed + 1 ≢ need) × (ask_from c need r (suc i) (counted a said) es ≡ ok b))))
  unfolding ask_from
  ask_from-said i a b e es said n h = ground arith

  ask_from-Ends :
      (i : ℕ) (a b : Answers) (es : List Endpoint)
      → IsUnanimous need a
      → is_given b.verdict ≡ true
      → ask_from c need r i a es ≡ ok b
      → Ends need a b (sayings b.verdict r es)
  unfolding ask_from sayings counted
  ask_from-Ends i a b [] u g h = absurd (ground arith)
  ask_from-Ends i a b (e ∷ es) u g h = elim (Option-cases (asked e r)) [
    | inl n ↦
        let a' = record a { silent = a.silent ++ i ∷ [] } in
        let rest =
          ask_from-Ends (suc i) a' b es (skipped a u i) g (ask_from-silent i a b e es n h) in
        ground arith
    | inr (said, n) ↦ elim (ask_from-said i a b e es said n h) [
      | inl d ↦ absurd (ground arith)
      | inr (fits, inl (done, is)) ↦
          ground (arith, verdict_eq_refl said, verdict_eq→eq said a.verdict)
      | inr (fits, inr (more, on)) ↦
          let u' = counted-IsUnanimous need a said u (asked-is_given e r said n) more in
          let rest = ask_from-Ends (suc i) (counted a said) b es u' g on in
          ground (arith, verdict_eq_refl said, verdict_eq→eq said a.verdict)
    ]
  ]

no_answers-IsUnanimous : (need : ℕ) → need ≢ 0 → IsUnanimous need no_answers
no_answers-IsUnanimous need n = ground arith

ask-ask_from :
    (c : Context) (es : List Endpoint) (need : ℕ) (r : Recorded) (b : Answers)
    → ask c es need r ≡ ok b
    → (need ≢ 0) × (ask_from c need r 0 no_answers es ≡ ok b)
unfolding ask
ask-ask_from c es need r b h = ground arith

-- A verdict that anything could be settled from rests on as many endpoints as agreement takes: at
-- least that many of those asked give it for the recorded transfer, exactly that many answered, and
-- none of those that answered said anything else.
pub ask_agreement :
    (c : Context) (es : List Endpoint) (need : ℕ) (r : Recorded) (b : Answers)
    → ask c es need r ≡ ok b
    → is_given b.verdict ≡ true
    → (b.agreed ≡ need) × (b.answered ≡ need) × (need ≤ sayings b.verdict r es)
ask_agreement c es need r b h g =
    let (some_needed, run) = ask-ask_from c es need r b h in
    let ends =
      ask_from-Ends c need r 0 no_answers b es (no_answers-IsUnanimous need some_needed) g run in
    (ends.agreed, ends.answered, omega (arith, ends.enough))
