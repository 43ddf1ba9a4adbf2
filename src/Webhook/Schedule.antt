-- ===== src/Webhook/Schedule.antt =====
-- internal/webhook/delivery.go: when a delivery that failed is tried again. What the random share adds
-- to a wait is the parameter `jitter`.
use sucopay.Prelude.{
  ℕ, zero, suc, ◌+◌, ◌*◌, ◌/◌, ◌≤◌, ◌≡◌, true, ◌||◌, List, [], ◌∷◌, length, get_elem?, Option, none,
  some, is_some, ltb, leb, if◌then◌else◌, arith, ◌↔◌,
}
use sucopay.Webhook.{second, hour}

-- `schedule`
unfoldable pub schedule : List ℕ
schedule =
    0
    ∷ 5 * second
    ∷ 5 * 60 * second
    ∷ 30 * 60 * second
    ∷ 2 * hour
    ∷ 5 * hour
    ∷ 10 * hour
    ∷ 14 * hour
    ∷ 20 * hour
    ∷ 24 * hour
    ∷ []

wait_of : Option ℕ → ℕ
wait_of none = 0
wait_of (some w) = w

-- `NextAttempt`; the false that it answers is `none`
unfoldable pub next_attempt : (ℕ → ℕ) → ℕ → ℕ → Option ℕ
unfolding schedule wait_of
next_attempt jitter failed now =
    if ltb failed 1 || leb (length schedule) failed
    then none
    else (let wait = wait_of (get_elem? schedule failed) in some (now + (wait + jitter wait)))

pub retried :
    (jitter : ℕ → ℕ) (failed now : ℕ)
    → (is_some (next_attempt jitter failed now) ≡ true) ↔ ((1 ≤ failed) × (failed ≤ 9))
unfolding next_attempt schedule
retried jitter failed now = ground arith

waits :
    (failed : ℕ)
    → 1 ≤ failed
    → failed ≤ 9
    → (5 * second ≤ wait_of (get_elem? schedule failed))
      × (wait_of (get_elem? schedule failed) ≤ 24 * hour)
unfolding schedule wait_of
waits zero low high = absurd (omega arith)
waits (suc zero) low high = omega arith
waits (suc (suc zero)) low high = omega arith
waits (suc (suc (suc zero))) low high = omega arith
waits (suc (suc (suc (suc zero)))) low high = omega arith
waits (suc (suc (suc (suc (suc zero))))) low high = omega arith
waits (suc (suc (suc (suc (suc (suc zero)))))) low high = omega arith
waits (suc (suc (suc (suc (suc (suc (suc zero))))))) low high = omega arith
waits (suc (suc (suc (suc (suc (suc (suc (suc zero)))))))) low high = omega arith
waits (suc (suc (suc (suc (suc (suc (suc (suc (suc zero))))))))) low high = omega arith
waits (suc (suc (suc (suc (suc (suc (suc (suc (suc (suc n)))))))))) low high = absurd (omega arith)

bounded :
    (jitter : ℕ → ℕ) (failed now : ℕ)
    → ((w : ℕ) → jitter w ≤ w / 10)
    → (at : ℕ) → next_attempt jitter failed now ≡ some at
    → (now + 5 * second ≤ at) × (at ≤ now + 24 * hour + 24 * hour / 10)
unfolding next_attempt
bounded jitter failed now small at h =
    let tried = (retried jitter failed now).0 (ground (arith, h)) in
    let wait = wait_of (get_elem? schedule failed) in
    let (low, high) = waits failed tried.0 tried.1 in
    let share = small wait in ground (arith, h, low, high, share)

-- A delivery is tried again exactly after its first to its ninth failure; and then no sooner than five
-- seconds and, with a jitter of a tenth at most, no later than twenty-six hours and twenty-four minutes
-- from now.
pub next_attempt_lem :
    (jitter : ℕ → ℕ) (failed now : ℕ)
    → ((w : ℕ) → jitter w ≤ w / 10)
    → ((is_some (next_attempt jitter failed now) ≡ true) ↔ ((1 ≤ failed) × (failed ≤ 9)))
      × ((at : ℕ)
          → next_attempt jitter failed now ≡ some at
          → (now + 5 * second ≤ at) × (at ≤ now + 24 * hour + 24 * hour / 10))
unfolding next_attempt
next_attempt_lem jitter failed now small =
    let near = λ (at : ℕ) (h : next_attempt jitter failed now ≡ some at).
      bounded jitter failed now small at h in
    (retried jitter failed now, near)
