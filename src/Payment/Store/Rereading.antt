-- ===== src/Payment/Store/Rereading.antt =====
-- What a payment that something arrived for was written as is read again.
use sucopay.Prelude.{ℕ, ◌≡◌, inl, inr, true, ok, arith, IsOk, Result-cases}
use sucopay.Payment.Money
use sucopay.Payment.Money.{Money, cmp}
use sucopay.Payment.Aggregate.{Payment, Stored, build, record_received, request_of, restore}
use sucopay.Payment.Aggregate.Opening.{build-opened}
use sucopay.Payment.Lifecycle.{can_receive, receive}
use sucopay.Payment.Store.Rows.{restore-status, restore-amount}
use sucopay.Payment.Store.Payments.{saved_columns}

-- What receiving asks for, and what it changes.
received-facts :
    (p p' : Payment) (m : Money)
    → receive m p ≡ ok p'
    → (can_receive p ≡ true)
      × (Money.is_set m ≡ true)
      × (IsOk (cmp m p.amount))
      × (p'.received ≡ m)
      × (p'.status ≡ p.status)
unfolding receive record_received Money.is_set
received-facts p p' m h = elim (Result-cases (cmp m p.amount)) [
  | inr (e, c) ↦ absurd (ground (arith, c))
  | inl (sign, c) ↦
      (ground (arith, c), ground (arith, c), (sign, c), ground (arith, c), ground (arith, c))
]

saved-columns :
    (clock : ℕ) (s : Stored) (p' : Payment) (m : Money)
    → Money.is_set m ≡ true
    → m.asset ≡ s.amount.asset
    → p'.received ≡ m
    → p'.status ≡ s.status
    → ((saved_columns clock p' s).received ≡ m) × ((saved_columns clock p' s).status ≡ s.status)
unfolding saved_columns Money.is_set Money.amount_of
saved-columns clock s p' m set same got status = (ground arith, ground arith)

pub received-IsOk :
    (clock : ℕ) (s : Stored) (p p' : Payment) (m : Money)
    → restore s ≡ ok p
    → m.asset ≡ s.amount.asset
    → receive m p ≡ ok p'
    → IsOk (restore (saved_columns clock p' s))
unfolding restore record_received can_receive Money.is_set saved_columns
received-IsOk clock s p p' m r same h =
    let (open_still, set, (sign, c), got, status) = received-facts p p' m h in
    let (received, as_was) =
      saved-columns clock s p' m set same got (ground (arith, status, restore-status s p r)) in
    let can : can_receive p ≡ true = open_still in
    let money : cmp m s.amount ≡ ok sign = ground (arith, c, restore-amount s p r) in
    elim (Result-cases (build s.id (request_of s) s.status s.created_at s.created_at)) [
      | inr (e, n) ↦ absurd (ground (arith, n))
      | inl (q, n) ↦
          let is = (build-opened s.id (request_of s) s.status s.created_at s.created_at q n).1 in
          elim (Result-cases (restore (saved_columns clock p' s))) [
            | inl good ↦ good
            | inr (e, k) ↦
                absurd (
                  ground (arith, k, n, is, money, received, as_was, can, set, restore-status s p r))
          ]
    ]
