-- ===== src/Payment/Service/Superseded.antt =====
-- The step that supersedes an attempt, against how many there are.
use sucopay.Prelude.{
  ℕ, ◌≤◌, ◌≡◌, ◌∙◌, inl, inr, ◌&&◌, List, [], ◌∷◌, none, some, ok, arith, Bool-cases, Result-cases,
  Option-cases,
}
use sucopay.Text.{Text, text_eq, text_eq_iff}
use sucopay.Payment.Attempt.{Attempt, restore_attempt, supersede}
use sucopay.Payment.Store.{Database, AttemptRow, Revision}
use sucopay.Payment.Store.Payments.{find}
use sucopay.Payment.Store.Attempts.{
  is_of, attempts_of, attempted, live, live_row, save_attempt, update_attempts,
}
use sucopay.Payment.Store.Lives.{attempts_of-update, lives_of-other, differ-update}
use sucopay.Payment.Service.{supersede_attempt, the_live}
use sucopay.Payment.Service.Steps.{Few, AreFew}

live-payment :
    (account payment : Text) (rows : List AttemptRow) (row : AttemptRow)
    → live_row account payment rows ≡ some row
    → row.attempt.payment_id ≡ payment
unfolding live_row is_of
live-payment account payment [] row h = absurd (ground arith)
live-payment account payment (y ∷ rows) row h =
    ground (arith, live-payment account payment rows row, text_eq_iff y.attempt.payment_id payment)

live-of_payment :
    (account payment : Text) (d : Database) (a : Attempt) (at : Revision)
    → live account payment d ≡ ok (some (a, at))
    → a.payment_id ≡ payment
unfolding live restore_attempt
live-of_payment account payment d a at h =
    elim (Option-cases (live_row account payment d.attempts)) [
      | inl n ↦ absurd (ground arith)
      | inr (row, n) ↦ let of = live-payment account payment d.attempts row n in ground arith
    ]

pub save_attempt-rows :
    (account : Text) (b : Attempt) (at : Revision) (d d' : Database)
    → save_attempt account (some b) at d ≡ ok d'
    → (d'.attempts ≡ update_attempts account b at.at d.attempts) × (at.id ≡ b.id)
unfolding save_attempt
save_attempt-rows account b at d d' h = ground (arith, text_eq_iff at.id b.id)

superseded-save :
    (account payment id : Text) (d d' : Database)
    → supersede_attempt account payment id d ≡ ok d'
    → (b : Attempt) × (at : Revision) × (b.payment_id ≡ payment)
      × (attempts_of account payment d.attempts ≤ 1)
      × (save_attempt account (some b) at d ≡ ok d')
unfolding supersede_attempt attempted the_live supersede
superseded-save account payment id d d' h = elim (Result-cases (find account payment d)) [
  | inr (e, n) ↦ absurd (ground arith)
  | inl ((q, at), f) ↦ elim (Result-cases (live account payment d)) [
    | inr (e, n) ↦ absurd (ground arith)
    | inl (none, g) ↦ absurd (ground arith)
    | inl (some (a, rev), g) ↦ elim (Result-cases (supersede a)) [
      | inr (e, n) ↦ absurd (ground arith)
      | inl (b, moved) ↦
          let of = live-of_payment account payment d a rev g in
          elim (Result-cases (save_attempt account (some b) rev d)) [
            | inr (e, n) ↦ absurd (ground arith)
            | inl (d'', n) ↦ (b, rev, ground arith, ground arith, ground arith)
          ]
    ]
  ]
]

superseded-Few :
    (account payment : Text) (b : Attempt) (at : ℕ) (rows : List AttemptRow)
    → b.payment_id ≡ payment
    → attempts_of account payment rows ≤ 1
    → (x i : Text) → Few rows x i
    → Few (update_attempts account b at rows) x i
superseded-Few account payment b at rows of one x i c =
    elim (Bool-cases (text_eq account x && text_eq b.payment_id i)) [
      | inl this ↦
          let n = attempts_of-update x i account b at rows in
          inl (ground (arith, text_eq_iff account x, text_eq_iff b.payment_id i))
      | inr other ↦
          rw (attempts_of-update x i account b at rows, lives_of-other x i account b at rows other)
            c
    ]

pub superseded-AreFew :
    (account payment id : Text) (d d' : Database)
    → supersede_attempt account payment id d ≡ ok d'
    → AreFew d
    → AreFew d'
superseded-AreFew account payment id d d' h c =
    let (b, at, of, one, saved) = superseded-save account payment id d d' h in
    let rows = (save_attempt-rows account b at d d' saved).0 in
    record {
      different = rw rows (differ-update account b at.at d.attempts ∙ c.different);
      few =
          λ x i. rw rows (superseded-Few account payment b at.at d.attempts of one x i (c.few x i));
    }
