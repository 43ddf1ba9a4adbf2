-- ===== src/Payment/Service/Sighted.antt =====
-- The steps that confirm an attempt and take that back, against how many there are.
use sucopay.Prelude.{◌≡◌, ◌∙◌, inl, inr, true, List, [], ◌∷◌, some, ok, arith, all, Option-cases}
use sucopay.Text.{Text, text_eq_iff}
use sucopay.Payment.Attempt.{Attempt, restore_attempt}
use sucopay.Payment.Store.{Database, AttemptRow, Revision}
use sucopay.Payment.Store.Attempts.{is_of, is_live, attempt_row, find_attempt, save_attempt}
use sucopay.Payment.Store.Lives.{
  differ, attempts_of-update, met_live, lives_of-update, found_met_live, differ-update,
}
use sucopay.Payment.Service.Steps.{Sighting, sight, AreFew}
use sucopay.Payment.Service.Superseded.{save_attempt-rows}

sighted-live :
    (s : Sighting) (a b : Attempt)
    → sight s a ≡ ok b
    → (is_live a.status ≡ true)
      × (is_live b.status ≡ true)
      × (b.id ≡ a.id)
      × (b.payment_id ≡ a.payment_id)
unfolding sight is_live
sighted-live s a b h = ground arith

found-attempt_row :
    (account payment id : Text) (d : Database) (a : Attempt) (at : Revision)
    → find_attempt account payment id d ≡ ok (a, at)
    → (row : AttemptRow) × (attempt_row account payment id d.attempts ≡ some row)
      × (a ≡ row.attempt)
unfolding find_attempt restore_attempt
found-attempt_row account payment id d a at h =
    elim (Option-cases (attempt_row account payment id d.attempts)) [
      | inl n ↦ absurd (ground arith)
      | inr (row, n) ↦ (row, n, ground arith)
    ]

attempt_row-key :
    (account payment id : Text) (rows : List AttemptRow) (row : AttemptRow)
    → attempt_row account payment id rows ≡ some row
    → (row.attempt.payment_id ≡ payment) × (row.attempt.id ≡ id)
unfolding attempt_row is_of
attempt_row-key account payment id [] row h = absurd (ground arith)
attempt_row-key account payment id (y ∷ rows) row h = ground (
  arith,
  attempt_row-key account payment id rows row,
  text_eq_iff y.attempt.payment_id payment,
  text_eq_iff y.attempt.id id,
)

module _ (account payment id : Text) (a b : Attempt) (at : Revision) (s : Sighting)
    (d d' : Database) (f : find_attempt account payment id d ≡ ok (a, at))
    (moved : sight s a ≡ ok b) (saved : save_attempt account (some b) at d ≡ ok d') where
  sighted-met : differ d.attempts ≡ true → all (met_live account b at.at) d.attempts ≡ true
  sighted-met different =
      let (row, found, is) = found-attempt_row account payment id d a at f in
      let key = attempt_row-key account payment id d.attempts row found in
      let terms = sighted-live s a b moved in
      found_met_live account b at.at row d.attempts different (ground (arith, found)) (ground arith)

  pub sighted-AreFew : AreFew d → AreFew d'
  sighted-AreFew c =
      let rows = (save_attempt-rows account b at d d' saved).0 in
      record {
        different = rw rows (differ-update account b at.at d.attempts ∙ c.different);
        few = λ x i.
            rw
              (
                rows,
                attempts_of-update x i account b at.at d.attempts,
                lives_of-update x i account b at.at d.attempts (sighted-met c.different)
                    (sighted-live s a b moved).1,
              )
              (c.few x i);
      }
