-- ===== src/Finality/Worker/Patience.antt =====
-- How long a worker waits: before it gives a transfer up, and before it asks again about one that the
-- endpoints disagree about.
use sucopay.Prelude.{
  ℕ, zero, suc, ◌+◌, ◌-◌, ◌≤◌, ◌≡◌, ◌≢◌, refl, ◌⊎◌, inl, inr, min, ◌&&◌, List, [], ◌∷◌, Option,
  none, some, ltb, ok, arith, Result-cases, Option-cases, Bool-cases, if◌then◌else◌,
}
use sucopay.Payment.Aggregate.{Payment}
use sucopay.Payment.Lifecycle.{succeed}
use sucopay.Payment.Refund.{Refund, settle}
use sucopay.Payment.Store.{Database, Revision, write_outbox}
use sucopay.Payment.Store.Payments.{save, save_payment, update_payment}
use sucopay.Payment.Store.Refunds.{save_refund}
use sucopay.Payment.Store.Transfers.{matched_transfer}
use sucopay.Text.{Text}
use sucopay.Finality.Ask.Agreement.{verdict_eq_refl}
use sucopay.Finality.Ask.{Verdict, final, gone, disagreed, verdict_eq}
use sucopay.Finality.Worker.{
  Setting, Stand, for_payment, for_refund, Standing, Answer, next_answer, rounds_of, announce,
  unless_stale, told, returned, pay, settle_refund, decided_final, decided,
}
use sucopay.Finality.Worker.Round.{skipped, one_less}

-- The answer that is kept of the verdicts of a transfer, the last one first.
unfoldable pub answer_after : List Verdict → Option Answer
unfolding next_answer
answer_after [] = none
answer_after (v ∷ vs) = some (next_answer (answer_after vs) v)

-- How many of some verdicts, from the last one back, are the same.
unfoldable pub streak : Verdict → List Verdict → ℕ
unfolding verdict_eq
streak v [] = 0
streak v (x ∷ xs) = let rest = streak v xs in if verdict_eq x v then rest + 1 else 0

-- The rounds of an answer are how often in a row its verdict was given.
pub answer_after-streak :
    (vs : List Verdict) (a : Answer) → answer_after vs ≡ some a → (a.rounds ≡ streak a.verdict vs)
unfolding answer_after next_answer rounds_of streak verdict_eq
answer_after-streak [] a h = absurd (ground arith)
answer_after-streak (v ∷ []) a h = ground (arith, verdict_eq_refl v)
answer_after-streak (v ∷ u ∷ vs) a h =
    let b = next_answer (answer_after vs) u in
    let before = answer_after-streak (u ∷ vs) b refl in
    elim (Bool-cases (verdict_eq u v)) [
      | inl again ↦
          let e : u ≡ v = ground (arith, again) in
          ground (arith, before, again, e, verdict_eq_refl v)
      | inr other ↦ ground (arith, other, verdict_eq_refl v)
    ]

-- What saving a payment or a refund leaves of what was seen.
pub told-seen :
    (w : Setting) (account : Text) (p : Payment) (at : Revision) (d d' : Database)
    → told w account p at d ≡ ok d'
    → d'.observations ≡ d.observations
unfolding told unless_stale save save_payment write_outbox
told-seen w account p at d d' h =
    let e = announce w.told p (matched_transfer account p.id d) in
    elim (Option-cases (update_payment w.clock account p at.at d.payments)) [
      | inl n ↦ ground (arith, n)
      | inr ((s, rows), n) ↦ ground (arith, n)
    ]

pub returned-seen :
    (w : Setting) (account : Text) (r : Refund) (at : Revision) (d d' : Database)
    → returned w account r at d ≡ ok d'
    → d'.observations ≡ d.observations
unfolding returned unless_stale save_refund write_outbox
returned-seen w account r at d d' h = ground arith

decided_final-seen :
    (w : Setting) (s : Stand) (d d' : Database)
    → decided_final w s d ≡ ok d'
    → d'.observations ≡ d.observations
unfolding decided_final pay settle_refund
decided_final-seen w (for_payment c) d d' h = elim (Result-cases (succeed c.payment)) [
  | inr (e, n) ↦ ground (arith, n)
  | inl (p, n) ↦ told-seen w c.account p c.payment_at d d' (ground (arith, n))
]
decided_final-seen w (for_refund c) d d' h = elim (Result-cases (settle c.refund)) [
  | inr (e, n) ↦ ground (arith, n)
  | inl (r, n) ↦ returned-seen w c.account r c.refund_at d d' (ground (arith, n))
]

-- Observations change only where a transfer is given up on.
decided-given_up :
    (w : Setting) (c : Standing) (a : Answer) (d d' : Database)
    → decided w c a d ≡ ok d'
    → (d'.observations ≡ d.observations) ⊎ ((a.verdict ≡ gone) × (w.misses ≤ a.rounds))
unfolding decided verdict_eq
decided-given_up w c a d d' h = elim (Bool-cases (verdict_eq a.verdict gone)) [
  | inl went ↦ ground (arith, went)
  | inr other ↦ elim (Bool-cases (verdict_eq a.verdict final)) [
    | inl settled ↦ inl (decided_final-seen w c.stand d d' (ground (arith, settled)))
    | inr more ↦ ground (arith, other, more)
  ]
]

-- A transfer is given up only after a run of verdicts: when deciding on the answer that is kept of the
-- verdicts on it, the last one first, changes anything of what was recorded, then the last verdicts
-- were that it is gone, at least as many in a row as the network's misses.
pub decided-patient :
    (w : Setting) (c : Standing) (vs : List Verdict) (a : Answer) (d d' : Database)
    → answer_after vs ≡ some a
    → decided w c a d ≡ ok d'
    → d'.observations ≢ d.observations
    → w.misses ≤ streak gone vs
decided-patient w c vs a d d' kept h changed = elim (decided-given_up w c a d d' h) [
  | inl same ↦ absurd (changed same)
  | inr (went, long) ↦ let run = answer_after-streak vs a kept in ground (arith, went, run, long)
]

-- An answer, after some passes in which the transfer was passed over.
unfoldable pub passed_over : ℕ → Answer → Answer
unfolding one_less
passed_over zero a = a
passed_over (suc n) a = passed_over n (one_less a)

passed_over-skip :
    (n : ℕ) (a : Answer)
    → ((passed_over n a).skip ≡ a.skip - n)
      × ((passed_over n a).verdict ≡ a.verdict)
      × ((passed_over n a).rounds ≡ a.rounds)
unfolding passed_over one_less
passed_over-skip zero a = ground arith
passed_over-skip (suc n) a = ground (arith, passed_over-skip n (one_less a))

-- A transfer that the endpoints disagree about is passed over for as many passes as it has been
-- disagreed about in a row, and for sixty at most; then it is asked about again, and its count is
-- still there.
pub next_answer-asked_again :
    (before : Option Answer) (said : Verdict) (n : ℕ)
    → let a = next_answer before said in
      (skipped (some (passed_over n a)) ≡ (verdict_eq said disagreed && ltb n (min a.rounds 60)))
      × ((passed_over n a).rounds ≡ a.rounds)
unfolding next_answer skipped
next_answer-asked_again before said n =
    let a = next_answer before said in let left = passed_over-skip n a in ground (arith, left)
