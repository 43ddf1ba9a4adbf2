-- ===== src/Payment/Service/Issued.antt =====
-- The step that issues an attempt, against how many there are.
use sucopay.Prelude.{
  ℕ, ◌≡◌, inl, inr, Bool, true, false, ◌&&◌, List, [], ◌∷◌, ◌++◌, Option, some, ok, arith, any,
  Bool-cases, ◌==◌, Result-cases,
}
use sucopay.Text.{Text, text_eq, text_eq_iff}
use sucopay.Payment.Aggregate.{Payment}
use sucopay.Payment.Attempt.{Attempt, new_attempt}
use sucopay.Payment.Attempt.Laws.{new_attempt_terms}
use sucopay.Payment.Store.{Database, AttemptRow}
use sucopay.Payment.Store.Payments.{find}
use sucopay.Payment.Store.Attempts.{issue, is_of, is_live, attempts_of, live}
use sucopay.Payment.Store.Lives.{
  lives_of, lives_of-le, lives_of-none, lives_of-append, attempts_of-append, differ-append,
}
use sucopay.Payment.Service.{issue_attempt}
use sucopay.Payment.Service.Steps.{Few, AreFew}

issue-rows :
    (account : Text) (a : Attempt) (d d' : Database)
    → issue account (some a) d ≡ ok d'
    → is_live a.status ≡ true
    → (d'.attempts ≡ d.attempts ++ record { account = account; attempt = a; revision = 1 } ∷ [])
      × (any (λ row. is_of account a.payment_id row && text_eq row.attempt.id a.id) d.attempts
          ≡ false)
      × (any (λ row. is_of account a.payment_id row && is_live row.attempt.status) d.attempts
          ≡ false)
unfolding issue
issue-rows account a d d' h l = ground arith

-- The row of an attempt that was issued.
abbrev issued_row : Text → Attempt → AttemptRow
issued_row account a = record { account = account; attempt = a; revision = 1 }

module _ (account : Text) (a : Attempt) (rows : List AttemptRow)
    (quiet : any (λ row. is_of account a.payment_id row && is_live row.attempt.status) rows ≡ false)
    (l : is_live a.status ≡ true) where
  issue-Few : (x i : Text) → Few rows x i → Few (rows ++ issued_row account a ∷ []) x i
  unfolding attempts_of lives_of is_of
  issue-Few x i c =
      let n = attempts_of-append x i rows (issued_row account a) in
      let k = lives_of-append x i rows (issued_row account a) in
      let z = lives_of-none account a.payment_id rows quiet in
      let b = lives_of-le x i rows in
      elim (Bool-cases (text_eq account x && text_eq a.payment_id i)) [
        | inl this ↦
            let same = (text_eq_iff account x).0 (ground arith) in
            let same' = (text_eq_iff a.payment_id i).0 (ground arith) in
            elim c [
              | inl few ↦ elim (Bool-cases (attempts_of x i rows == 0)) [
                | inl first ↦ inl (ground arith)
                | inr second ↦ inr (ground arith, ground arith)
              ]
              | inr (two, one) ↦ absurd (ground arith)
            ]
        | inr other ↦ elim c [
          | inl few ↦ inl (ground arith)
          | inr (two, one) ↦ inr (ground arith, ground arith)
        ]
      ]

pub issue-AreFew :
    (account : Text) (a : Attempt) (d d' : Database)
    → issue account (some a) d ≡ ok d'
    → is_live a.status ≡ true
    → AreFew d
    → AreFew d'
issue-AreFew account a d d' h l c =
    let (added, fresh, quiet) = issue-rows account a d d' h l in
    record {
      different = rw added (differ-append (issued_row account a) d.attempts c.different fresh);
      few = λ x i. rw added (issue-Few account a d.attempts quiet l x i (c.few x i));
    }

pub issue_attempt-issue :
    (account payment : Text) (now : ℕ) (has_position : Text → Bool)
    (random_id random_key : Option (List ℕ)) (d d' : Database) (a : Attempt) (p : Payment)
    → issue_attempt account payment now has_position random_id random_key d ≡ ok (a, p, d')
    → (issue account (some a) d ≡ ok d') × (is_live a.status ≡ true)
unfolding issue_attempt is_live
issue_attempt-issue account payment now has_position random_id random_key d d' a p h =
    elim (Result-cases (find account payment d)) [
      | inr (e, n) ↦ absurd (ground arith)
      | inl ((q, at), f) ↦ elim (Result-cases (live account payment d)) [
        | inr (e, n) ↦ absurd (ground arith)
        | inl (going, g) ↦ elim (Result-cases (new_attempt (some q) now random_id random_key)) [
          | inr (e, n) ↦ absurd (ground arith)
          | inl (b, made) ↦
              let terms = new_attempt_terms q now random_id random_key b made in
              elim (Result-cases (issue account (some b) d)) [
                | inr (e, n) ↦ absurd (ground arith)
                | inl (stored, n) ↦ (ground arith, ground arith)
              ]
        ]
      ]
    ]
