-- ===== src/Payment/Service/Steps.antt =====
-- What happens to the attempts of payments.
use sucopay.Prelude.{ℕ, ◌≤◌, ◌≡◌, ◌⊎◌, Bool, true, List, Option, some, Result, ok}
use sucopay.Text.{Text}
use sucopay.Payment.Aggregate.{Payment}
use sucopay.Payment.Attempt.{Attempt, AttemptError, confirm, unconfirm}
use sucopay.Payment.Store.{Database, AttemptRow, Revision}
use sucopay.Payment.Store.Attempts.{attempts_of, find_attempt, save_attempt}
use sucopay.Payment.Store.Lives.{lives_of, differ}
use sucopay.Payment.Service.{issue_attempt, supersede_attempt}

-- A transfer that spends an attempt's key was seen, or is gone again.
pub data Sighting : Type 0 where
  seen : Text → Sighting
  gone : Sighting

unfoldable pub sight : Sighting → Attempt → Result AttemptError Attempt
unfolding confirm unconfirm
sight (seen by) a = confirm by a
sight gone a = unconfirm a

-- What happens to attempts, one call after another: the service issues and supersedes them, and the
-- rounds over a chain confirm them and take that back.
infix 4 ◌⇒◌
pub data ◌⇒◌ : Database → Database → Type 0 where
  attempt_issued :
      {d d' : Database} (account payment : Text) (now : ℕ) (has_position : Text → Bool)
      (random_id random_key : Option (List ℕ)) (a : Attempt) (p : Payment)
      → issue_attempt account payment now has_position random_id random_key d ≡ ok (a, p, d')
      → d ⇒ d'
  attempt_superseded :
      {d d' : Database} (account payment id : Text)
      → supersede_attempt account payment id d ≡ ok d'
      → d ⇒ d'
  attempt_sighted :
      {d d' : Database} (account payment id : Text) (a b : Attempt) (at : Revision) (s : Sighting)
      → find_attempt account payment id d ≡ ok (a, at)
      → sight s a ≡ ok b
      → save_attempt account (some b) at d ≡ ok d'
      → d ⇒ d'

infix 4 ◌⇒*◌
pub data ◌⇒*◌ : Database → Database → Type 0 where
  stays : {d : Database} → d ⇒* d
  goes : {d e f : Database} → d ⇒* e → e ⇒ f → d ⇒* f

-- At most one attempt, or two of which one is live.
abbrev pub Few : List AttemptRow → Text → Text → Type 0
Few rows a i = (attempts_of a i rows ≤ 1) ⊎ ((attempts_of a i rows ≡ 2) × (lives_of a i rows ≡ 1))

pub record AreFew (d : Database) : Type 0 where
  pub different : differ d.attempts ≡ true
  pub few : (a i : Text) → Few d.attempts a i
