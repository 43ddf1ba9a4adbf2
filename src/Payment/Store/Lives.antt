-- ===== src/Payment/Store/Lives.antt =====
-- How many attempts of a payment are live, as rows are added and moved.
use sucopay.Prelude.{
  ℕ, ◌+◌, ◌≤◌, ◌≡◌, refl, Bool, true, false, not, ◌&&◌, ◌||◌, List, [], ◌∷◌, ◌++◌, some, arith, any,
  all, if◌then◌else◌,
}
use sucopay.Text.{Text, text_eq, text_eq_iff}
use sucopay.Payment.Attempt.{Attempt}
use sucopay.Payment.Store.{AttemptRow}
use sucopay.Payment.Store.Attempts.{
  is_of, is_live, attempts_of, is_revision, update_attempts, attempt_row,
}

unfoldable pub lives_of : Text → Text → List AttemptRow → ℕ
lives_of account payment [] = 0
lives_of account payment (row ∷ rows) =
    (if is_of account payment row && is_live row.attempt.status then 1 else 0)
    + lives_of account payment rows

pub lives_of-le : (a i : Text) (rows : List AttemptRow) → lives_of a i rows ≤ attempts_of a i rows
unfolding lives_of attempts_of
lives_of-le a i [] = omega arith
lives_of-le a i (row ∷ rows) = ground (arith, lives_of-le a i rows)

pub lives_of-none :
    (a i : Text) (rows : List AttemptRow)
    → any (λ row. is_of a i row && is_live row.attempt.status) rows ≡ false
    → lives_of a i rows ≡ 0
unfolding lives_of
lives_of-none a i [] h = refl
lives_of-none a i (row ∷ rows) h = ground (arith, lives_of-none a i rows)

pub lives_of-append :
    (a i : Text) (rows : List AttemptRow) (row : AttemptRow)
    → lives_of a i (rows ++ row ∷ []) ≡ lives_of a i rows + lives_of a i (row ∷ [])
unfolding lives_of
lives_of-append a i [] row = omega arith
lives_of-append a i (x ∷ rows) row = ground (arith, lives_of-append a i rows row)

pub attempts_of-append :
    (a i : Text) (rows : List AttemptRow) (row : AttemptRow)
    → attempts_of a i (rows ++ row ∷ []) ≡ attempts_of a i rows + attempts_of a i (row ∷ [])
unfolding attempts_of
attempts_of-append a i [] row = omega arith
attempts_of-append a i (x ∷ rows) row = ground (arith, attempts_of-append a i rows row)

-- Two rows of one attempt.
abbrev pub same_attempt : AttemptRow → AttemptRow → Bool
same_attempt x y = is_of x.account x.attempt.payment_id y && text_eq y.attempt.id x.attempt.id

unfoldable pub differ : List AttemptRow → Bool
differ [] = true
differ (row ∷ rows) = not (any (same_attempt row) rows) && differ rows

pub attempts_of-update :
    (a i b : Text) (x : Attempt) (at : ℕ) (rows : List AttemptRow)
    → attempts_of a i (update_attempts b x at rows) ≡ attempts_of a i rows
unfolding attempts_of update_attempts is_of
attempts_of-update a i b x at [] = refl
attempts_of-update a i b x at (row ∷ rows) = ground (arith, attempts_of-update a i b x at rows)

-- Every row that an update meets is live.
abbrev pub met_live : Text → Attempt → ℕ → AttemptRow → Bool
met_live b x at row = not (is_revision b x at row) || is_live row.attempt.status

pub lives_of-update :
    (a i b : Text) (x : Attempt) (at : ℕ) (rows : List AttemptRow)
    → all (met_live b x at) rows ≡ true
    → is_live x.status ≡ true
    → lives_of a i (update_attempts b x at rows) ≡ lives_of a i rows
unfolding lives_of update_attempts is_of
lives_of-update a i b x at [] m l = refl
lives_of-update a i b x at (row ∷ rows) m l = ground (arith, lives_of-update a i b x at rows)

pub lives_of-other :
    (a i b : Text) (x : Attempt) (at : ℕ) (rows : List AttemptRow)
    → text_eq b a && text_eq x.payment_id i ≡ false
    → lives_of a i (update_attempts b x at rows) ≡ lives_of a i rows
unfolding lives_of update_attempts is_revision is_of
lives_of-other a i b x at [] k = refl
lives_of-other a i b x at (row ∷ rows) k = ground (
  arith,
  lives_of-other a i b x at rows,
  text_eq_iff row.account b,
  text_eq_iff row.account a,
  text_eq_iff row.attempt.payment_id x.payment_id,
  text_eq_iff row.attempt.payment_id i,
  text_eq_iff b a,
  text_eq_iff x.payment_id i,
)

same_attempt-any :
    (a i id : Text) (x row : AttemptRow) (rows : List AttemptRow)
    → attempt_row a i id rows ≡ some row
    → is_of a i x && text_eq x.attempt.id id ≡ true
    → any (same_attempt x) rows ≡ true
unfolding attempt_row is_of
same_attempt-any a i id x row [] h p = absurd (ground arith)
same_attempt-any a i id x row (y ∷ rows) h p = ground (
  arith,
  same_attempt-any a i id x row rows,
  text_eq_iff x.account a,
  text_eq_iff x.attempt.id id,
  text_eq_iff x.attempt.payment_id i,
  text_eq_iff y.account a,
  text_eq_iff y.attempt.id id,
  text_eq_iff y.attempt.payment_id i,
  text_eq_iff y.account x.account,
  text_eq_iff y.attempt.id x.attempt.id,
  text_eq_iff y.attempt.payment_id x.attempt.payment_id,
)

none_live :
    (b : Text) (z : Attempt) (at : ℕ) (x : AttemptRow) (rows : List AttemptRow)
    → any (same_attempt x) rows ≡ false
    → is_of b z.payment_id x && text_eq x.attempt.id z.id ≡ true
    → all (met_live b z at) rows ≡ true
unfolding is_revision is_of
none_live b z at x [] h p = refl
none_live b z at x (y ∷ rows) h p = ground (
  arith,
  none_live b z at x rows,
  text_eq_iff x.account b,
  text_eq_iff x.attempt.id z.id,
  text_eq_iff x.attempt.payment_id z.payment_id,
  text_eq_iff y.account b,
  text_eq_iff y.attempt.id z.id,
  text_eq_iff y.attempt.payment_id z.payment_id,
  text_eq_iff y.account x.account,
  text_eq_iff y.attempt.id x.attempt.id,
  text_eq_iff y.attempt.payment_id x.attempt.payment_id,
)

pub found_met_live :
    (b : Text) (z : Attempt) (at : ℕ) (row : AttemptRow) (rows : List AttemptRow)
    → differ rows ≡ true
    → attempt_row b z.payment_id z.id rows ≡ some row
    → is_live row.attempt.status ≡ true
    → all (met_live b z at) rows ≡ true
unfolding differ attempt_row is_revision
found_met_live b z at row [] d h l = refl
found_met_live b z at row (y ∷ rows) d h l = ground (
  arith,
  found_met_live b z at row rows,
  none_live b z at y rows,
  same_attempt-any b z.payment_id z.id y row rows,
)

any_same-update :
    (b : Text) (z : Attempt) (at : ℕ) (x : AttemptRow) (rows : List AttemptRow)
    → any (same_attempt x) (update_attempts b z at rows) ≡ any (same_attempt x) rows
unfolding update_attempts is_of
any_same-update b z at x [] = refl
any_same-update b z at x (row ∷ rows) = ground (arith, any_same-update b z at x rows)

pub differ-update :
    (b : Text) (z : Attempt) (at : ℕ) (rows : List AttemptRow)
    → differ (update_attempts b z at rows) ≡ differ rows
unfolding differ update_attempts
differ-update b z at [] = refl
differ-update b z at (row ∷ rows) =
    ground (arith, differ-update b z at rows, any_same-update b z at row rows)

any_same-append :
    (x y : AttemptRow) (rows : List AttemptRow)
    → any (same_attempt x) (rows ++ y ∷ []) ≡ any (same_attempt x) rows || same_attempt x y
any_same-append x y [] = ground arith
any_same-append x y (row ∷ rows) = ground (arith, any_same-append x y rows)

pub differ-append :
    (y : AttemptRow) (rows : List AttemptRow)
    → differ rows ≡ true
    → any (same_attempt y) rows ≡ false
    → differ (rows ++ y ∷ []) ≡ true
unfolding differ is_of
differ-append y [] d h = refl
differ-append y (row ∷ rows) d h = ground (
  arith,
  differ-append y rows,
  any_same-append row y rows,
  text_eq_iff y.account row.account,
  text_eq_iff y.attempt.id row.attempt.id,
  text_eq_iff y.attempt.payment_id row.attempt.payment_id,
  text_eq_iff row.account y.account,
  text_eq_iff row.attempt.id y.attempt.id,
  text_eq_iff row.attempt.payment_id y.attempt.payment_id,
)
