-- ===== src/Payment/Service/Issuing.antt =====
-- How many attempts a payment is given.
use sucopay.Prelude.{◌≤◌, ◌≡◌, refl, inl, [], arith}
use sucopay.Text.{Text}
use sucopay.Payment.Store.{Database}
use sucopay.Payment.Store.Attempts.{attempts_of}
use sucopay.Payment.Store.Lives.{lives_of, lives_of-le, differ}
use sucopay.Payment.Service.Steps.{
  ◌⇒◌, attempt_issued, attempt_superseded, attempt_sighted, ◌⇒*◌, stays, goes, AreFew,
}
use sucopay.Payment.Service.Issued.{issue-AreFew, issue_attempt-issue}
use sucopay.Payment.Service.Superseded.{superseded-AreFew}
use sucopay.Payment.Service.Sighted.{sighted-AreFew}

step-AreFew : {d d' : Database} → d ⇒ d' → AreFew d → AreFew d'
step-AreFew (attempt_issued account payment now has_position random_id random_key a p h) c =
    let (stored, l) =
      issue_attempt-issue account payment now has_position random_id random_key _ _ a p h in
    issue-AreFew account a _ _ stored l c
step-AreFew (attempt_superseded account payment id h) c =
    superseded-AreFew account payment id _ _ h c
step-AreFew (attempt_sighted account payment id a b at s f moved saved) c =
    sighted-AreFew account payment id a b at s _ _ f moved saved c

steps-AreFew : {d d' : Database} → d ⇒* d' → AreFew d → AreFew d'
steps-AreFew stays c = c
steps-AreFew (goes before last) c = step-AreFew last (steps-AreFew before c)

no_attempts-AreFew : (d : Database) → d.attempts ≡ [] → AreFew d
unfolding differ attempts_of
no_attempts-AreFew d h = record { different = rw h refl; few = λ a i. inl (rw h (omega arith)) }

-- However often the service is asked to issue and supersede the attempts of its payments, and the
-- transfers that spend their keys are seen and gone again, from a database that has no attempt: a
-- payment has at most two attempts, and at most one of them is live.
pub two_attempts :
    {d d' : Database}
    → d.attempts ≡ []
    → d ⇒* d'
    → (a i : Text) → (attempts_of a i d'.attempts ≤ 2) × (lives_of a i d'.attempts ≤ 1)
two_attempts {d} {d'} none_yet steps a i =
    let few = (steps-AreFew steps (no_attempts-AreFew d none_yet)).few a i in
    let le = lives_of-le a i d'.attempts in ground arith
