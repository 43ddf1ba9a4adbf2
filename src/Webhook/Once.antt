-- ===== src/Webhook/Once.antt =====
-- What the sends of one round may run beside.
use sucopay.Prelude.{
  ℕ, ◌≡◌, refl, inl, inr, Bool, true, not, ◌&&◌, List, [], ◌∷◌, Option, none, some, any, all, keep,
  sort_by, length, ltb, ◌==◌, arith, Bool-cases, pairwise, pairwise-take, pairwise-sort_by,
}
use sucopay.Text.{Text, text_eq, text_eq_iff}
use sucopay.Webhook.{Hooks, DeliveryRow}
use sucopay.Webhook.Deliveries.{same_payment, goes_before, is_due, due_before, per_endpoint, due}

-- Two deliveries that are not of one payment to one endpoint, or not of no payment to one endpoint.
unfoldable pub apart : DeliveryRow → DeliveryRow → Bool
unfolding same_payment
apart x y = not (text_eq x.endpoint y.endpoint && same_payment x.payment y.payment)

-- Two rows with different numbers.
unfoldable pub numbered : DeliveryRow → DeliveryRow → Bool
numbered x y = not (x.seq == y.seq)

same_payment_sym : (p q : Option Text) → same_payment p q ≡ same_payment q p
unfolding same_payment
same_payment_sym none none = refl
same_payment_sym none (some q) = refl
same_payment_sym (some p) none = refl
same_payment_sym (some p) (some q) = ground (arith, text_eq_iff p q, text_eq_iff q p)

apart-turned : (x y : DeliveryRow) → apart x y ≡ true → apart y x ≡ true
unfolding apart
apart-turned x y h = ground (
  arith,
  same_payment_sym x.payment y.payment,
  text_eq_iff x.endpoint y.endpoint,
  text_eq_iff y.endpoint x.endpoint,
)

module _ (now : ℕ) (h : Hooks) where
  -- Of two rows of one payment to one endpoint, the one with the larger number is not due.
  clash :
      (x y : DeliveryRow)
      → ((test : DeliveryRow → Bool) → test x ≡ true → any test h.deliveries ≡ true)
      → ((test : DeliveryRow → Bool) → test y ≡ true → any test h.deliveries ≡ true)
      → numbered x y ≡ true
      → is_due now h x && is_due now h y ≡ true
      → apart x y ≡ true
  unfolding is_due goes_before numbered apart
  clash x y there also differ both = ground (
    arith,
    there (goes_before y),
    also (goes_before x),
    same_payment_sym x.payment y.payment,
    text_eq_iff x.endpoint y.endpoint,
    text_eq_iff y.endpoint x.endpoint,
  )

  all-apart :
      (x : DeliveryRow) (ys : List DeliveryRow)
      → ((test : DeliveryRow → Bool) → test x ≡ true → any test h.deliveries ≡ true)
      → ((test : DeliveryRow → Bool) → any test ys ≡ true → any test h.deliveries ≡ true)
      → all (numbered x) ys ≡ true
      → is_due now h x ≡ true
      → all (apart x) (keep (is_due now h) ys) ≡ true
  all-apart x [] there also n d = refl
  all-apart x (y ∷ ys) there also n d =
      let rest =
        all-apart x ys there (λ test t. also test (ground (arith, t))) (ground (arith, n)) d in
      elim (Bool-cases (is_due now h y)) [
        | inr late ↦ ground (arith, late, rest)
        | inl also_due ↦
            let far =
              clash x y there (λ test t. also test (ground (arith, t))) (ground (arith, n))
                (ground (arith, d, also_due)) in
            ground (arith, also_due, rest, far)
      ]

  due_apart :
      (xs : List DeliveryRow)
      → ((test : DeliveryRow → Bool) → any test xs ≡ true → any test h.deliveries ≡ true)
      → pairwise numbered xs ≡ true
      → pairwise apart (keep (is_due now h) xs) ≡ true
  due_apart [] also n = refl
  due_apart (x ∷ xs) also n =
      let rest = due_apart xs (λ test t. also test (ground (arith, t))) (ground (arith, n)) in
      elim (Bool-cases (is_due now h x)) [
        | inr late ↦ ground (arith, late, rest)
        | inl d ↦
            let far =
              all-apart x xs (λ test t. also test (ground (arith, t)))
                (λ test t. also test (ground (arith, t))) (ground (arith, n)) d in
            ground (arith, d, rest, far)
      ]

per_endpoint-all :
    (q : DeliveryRow → Bool) (most : ℕ) (before ds : List DeliveryRow)
    → all q ds ≡ true
    → all q (per_endpoint most before ds) ≡ true
unfolding per_endpoint
per_endpoint-all q most before [] h = refl
per_endpoint-all q most before (d ∷ ds) h =
    let rest = per_endpoint-all q most (d ∷ before) ds (ground (arith, h)) in
    elim (Bool-cases
      (ltb (length (keep (λ (x : DeliveryRow). text_eq x.endpoint d.endpoint) before)) most)) [
        | inl few ↦ ground (arith, few, rest)
        | inr many ↦ ground (arith, many, rest)
      ]

per_endpoint-apart :
    (most : ℕ) (before ds : List DeliveryRow)
    → pairwise apart ds ≡ true
    → pairwise apart (per_endpoint most before ds) ≡ true
unfolding per_endpoint
per_endpoint-apart most before [] h = refl
per_endpoint-apart most before (d ∷ ds) h =
    let rest = per_endpoint-apart most (d ∷ before) ds (ground (arith, h)) in
    let far = per_endpoint-all (apart d) most (d ∷ before) ds (ground (arith, h)) in
    elim (Bool-cases
      (ltb (length (keep (λ (x : DeliveryRow). text_eq x.endpoint d.endpoint) before)) most)) [
        | inl few ↦ ground (arith, few, rest, far)
        | inr many ↦ ground (arith, many, rest)
      ]

-- Where no two deliveries have the same number, no two of those that a round sends beside one another
-- are of the same payment to the same endpoint, nor both of no payment to the same endpoint.
pub due-apart :
    (now limit most : ℕ) (h : Hooks)
    → pairwise numbered h.deliveries ≡ true
    → pairwise apart (due now limit most h) ≡ true
unfolding due
due-apart now limit most h distinct =
    let few = keep (is_due now h) h.deliveries in
    let sorted = sort_by due_before few in
    pairwise-take apart limit (per_endpoint most [] sorted) (
      per_endpoint-apart most [] sorted (
        pairwise-sort_by apart apart-turned due_before few
          (due_apart now h h.deliveries (λ test t. t) distinct)))
