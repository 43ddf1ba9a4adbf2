-- ===== src/Payment/Lifecycle/Diagram.antt =====
-- The diagram of a payment's states, and that the methods follow it.
use sucopay.Prelude.{◌≡◌, refl, ◌⊎◌, ◌↔◌, inl, inr, true, List, [], ◌∷◌, ok, arith}
use sucopay.Payment.Status.{
  Status, created, awaiting_payment, awaiting_finality, succeeded, failed, expired, other, valid,
  final, can_become,
}
use sucopay.Payment.Aggregate.{Payment}
use sucopay.Payment.Lifecycle.Moves.{Move, apply, left_by, run}

-- The moves of a payment, one to an arrow.
infix 40 ◌⟶◌
pub data ◌⟶◌ : Status → Status → Type 0 where
  opens : created ⟶ awaiting_payment
  pays : awaiting_payment ⟶ succeeded
  fails : awaiting_payment ⟶ failed
  closes : awaiting_payment ⟶ awaiting_finality
  settles : awaiting_finality ⟶ succeeded
  expires : awaiting_finality ⟶ expired

ruleset arrows = (opens, pays, fails, closes, settles, expires)

can_become→⟶ : (s t : Status) → can_become s t ≡ true → s ⟶ t
unfolding can_become
can_become→⟶ s t h = grind (arith, arrows)

⟶-can_become : {s t : Status} → s ⟶ t → can_become s t ≡ true
unfolding can_become
⟶-can_become opens = refl
⟶-can_become pays = refl
⟶-can_become fails = refl
⟶-can_become closes = refl
⟶-can_become settles = refl
⟶-can_become expires = refl

-- What a successful call leaves alone: all that a payment was opened with, and the moment that it
-- was closed.
pub record SameTerms (p p' : Payment) : Type 0 where
  pub id : p'.id ≡ p.id
  pub amount : p'.amount ≡ p.amount
  pub destination : p'.destination ≡ p.destination
  pub metadata : p'.metadata ≡ p.metadata
  pub created_at : p'.created_at ≡ p.created_at
  pub expires_at : p'.expires_at ≡ p.expires_at
  pub return_url : p'.return_url ≡ p.return_url
  pub checkout : p'.checkout ≡ p.checkout
  pub idempotency : p'.idempotency ≡ p.idempotency
  pub closed_at : p'.closed_at ≡ p.closed_at

apply-SameTerms : (m : Move) (p p' : Payment) → apply m p ≡ ok p' → SameTerms p p'
unfolding apply
apply-SameTerms m p p' h = ground arith

apply_status :
    (m : Move) (p p' : Payment)
    → apply m p ≡ ok p'
    → (p'.status ≡ p.status) ⊎ (can_become p.status p'.status ≡ true)
unfolding apply
apply_status m p p' h = ground arith

-- A call that succeeds follows an arrow of the diagram or leaves the status, and changes nothing of
-- what the payment was opened with.
pub apply_follows :
    (m : Move) (p p' : Payment)
    → apply m p ≡ ok p'
    → SameTerms p p' × ((p'.status ≡ p.status) ⊎ (p.status ⟶ p'.status))
apply_follows m p p' h = (
  apply-SameTerms m p p' h,
  elim (apply_status m p p' h) [ inl e ↦ inl e | inr e ↦ inr (can_become→⟶ p.status p'.status e) ],
)

-- Every arrow is a move that `CanBecome` allows, and it allows no other.
pub can_become_iff : (s t : Status) → (can_become s t ≡ true) ↔ (s ⟶ t)
can_become_iff s t = (can_become→⟶ s t, λ a. ⟶-can_become a)

final-valid : (s : Status) → final s ≡ true → valid s ≡ true
unfolding final
final-valid s h = ground arith

final-no_arrow : {s t : Status} → s ⟶ t → final s ≡ true → ⊥
unfolding final
final-no_arrow opens h = cc
final-no_arrow pays h = cc
final-no_arrow fails h = cc
final-no_arrow closes h = cc
final-no_arrow settles h = cc
final-no_arrow expires h = cc

no_arrow-final : (s : Status) → valid s ≡ true → ((t : Status) → ¬ (s ⟶ t)) → final s ≡ true
unfolding final
no_arrow-final created v h = absurd (h awaiting_payment opens)
no_arrow-final awaiting_payment v h = absurd (h failed fails)
no_arrow-final awaiting_finality v h = absurd (h expired expires)
no_arrow-final (other t) v h = cc
no_arrow-final _ v h = refl

-- A status is final exactly if it is one that the package defines and no arrow leaves it.
pub final_iff : (s : Status) → (final s ≡ true) ↔ ((valid s ≡ true) × ((t : Status) → ¬ (s ⟶ t)))
final_iff s = (λ h. (final-valid s h, λ t a. final-no_arrow a h), λ h. no_arrow-final s h.0 h.1)

apply-final : (m : Move) (p : Payment) → final p.status ≡ true → left_by (apply m p) p ≡ p
unfolding apply final
apply-final m p h = ground arith

-- Nothing follows a final status: whatever is called on a payment that has one, it stays the same
-- payment, field by field.
pub run-final : (p : Payment) (ms : List Move) → final p.status ≡ true → run p ms ≡ p
unfolding run
run-final p [] h = refl
run-final p (m ∷ ms) h = rw (apply-final m p h) (run-final p ms h)
