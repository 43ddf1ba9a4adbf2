-- ===== src/Webhook/Refusals.antt =====
-- A delivery that its receiver never takes.
use sucopay.Prelude.{
  ℕ, ◌+◌, ◌≤◌, ◌≡◌, refl, sym, ap, ◌∙◌, inl, inr, true, false, ◌&&◌, List, [], ◌∷◌, ◌++◌, Option,
  some, none, length, keep, ltb, leb, arith, ltb→lt, Bool-cases, if◌then◌else◌,
}
use sucopay.Text.{Text, text_eq, text_eq_refl}
use sucopay.Webhook.{
  Hooks, DeliveryRow, AttemptRow, Outcome, State, pending, failed, is_pending, was_delivered,
}
use sucopay.Webhook.Endpoints.{find_row}
use sucopay.Webhook.Deliveries.{is_due, attempted}
use sucopay.Webhook.Orphans.{find_row-id, attempted-found}

-- The row of a delivery, and how often it was attempted.
unfoldable pub row_of : Text → Hooks → Option DeliveryRow
unfolding find_row
row_of id h = find_row (λ (r : DeliveryRow). text_eq r.id id) h.deliveries

unfoldable pub attempts_at : Text → List AttemptRow → ℕ
attempts_at id ws = length (keep (λ (a : AttemptRow). text_eq a.delivery id) ws)

-- An attempt at a moment, if the delivery is due then.
unfoldable pub refused_at : (ℕ → ℕ) → Outcome → Text → ℕ → Hooks → Hooks
unfolding row_of is_due attempted
refused_at jitter o id t h = elim (row_of id h) [
  | none ↦ h
  | some d ↦ if is_due t h d then attempted jitter d o t h else h
]

unfoldable pub refused_each : (ℕ → ℕ) → Outcome → Text → List ℕ → Hooks → Hooks
unfolding refused_at
refused_each jitter o id [] h = h
refused_each jitter o id (t ∷ ts) h = refused_each jitter o id ts (refused_at jitter o id t h)

attempts_at-append :
    (id : Text) (a : AttemptRow) (ws : List AttemptRow)
    → a.delivery ≡ id
    → attempts_at id (ws ++ a ∷ []) ≡ attempts_at id ws + 1
unfolding attempts_at
attempts_at-append id a [] e = ground (arith, text_eq_refl id)
attempts_at-append id a (b ∷ ws) e = ground (arith, attempts_at-append id a ws e)

-- As many attempts were written ws the row says, on top of some, and it waits until the tenth.
record IsCounted (id : Text) (base : ℕ) (h : Hooks) : Type 0 where
  left : DeliveryRow
  there : row_of id h ≡ some left
  written : attempts_at id h.attempts ≡ base + left.attempts
  few : left.attempts ≤ 10
  state : left.state ≡ (if ltb left.attempts 10 then pending else failed)

is_due-pending : (t : ℕ) (h : Hooks) (d : DeliveryRow) → is_due t h d ≡ true → d.state ≡ pending
unfolding is_due is_pending
is_due-pending t h d e = ground arith

pending-few :
    (s : State) (n : ℕ) → s ≡ (if ltb n 10 then pending else failed) → s ≡ pending → ltb n 10 ≡ true
pending-few s n e p = ground arith

over :
    (t : ℕ) (h : Hooks) (d : DeliveryRow)
    → d.state ≡ (if ltb d.attempts 10 then pending else failed)
    → is_due t h d && leb 10 d.attempts ≡ false
over t h d e = elim (Bool-cases (is_due t h d)) [
  | inr idle ↦ ground (arith, idle)
  | inl due ↦
      let few = pending-few d.state d.attempts e (is_due-pending t h d due) in ground (arith, few)
]

attempted-attempts :
    (jitter : ℕ → ℕ) (o : Outcome) (t : ℕ) (d : DeliveryRow) (h : Hooks)
    → attempts_at d.id (attempted jitter d o t h).attempts ≡ attempts_at d.id h.attempts + 1
unfolding attempted
attempted-attempts jitter o t d h = attempts_at-append d.id _ h.attempts refl

refused_at-IsCounted :
    (jitter : ℕ → ℕ) (o : Outcome) (id : Text) (t base : ℕ) (h : Hooks)
    → was_delivered o ≡ false
    → IsCounted id base h
    → IsCounted id base (refused_at jitter o id t h)
unfolding refused_at row_of
refused_at-IsCounted jitter o id t base h refused c = elim (Bool-cases (is_due t h c.left)) [
  | inr idle ↦
      let same : refused_at jitter o id t h ≡ h = ground (arith, idle, c.there) in rw same c
  | inl due ↦
      let d = c.left in
      let goes : refused_at jitter o id t h ≡ attempted jitter d o t h =
        ground (arith, due, c.there) in
      let mine : d.id ≡ id = find_row-id id h.deliveries d c.there in
      let (left, found, endpoint, attempts, state) =
        attempted-found jitter t o d d h refused (ap (λ (x : Text). row_of x h) mine ∙ c.there) in
      let h' = attempted jitter d o t h in
      let open_still : ltb d.attempts 10 ≡ true =
        pending-few d.state d.attempts c.state (is_due-pending t h d due) in
      rw goes (record {
        left = left;
        there = ap (λ (x : Text). row_of x h') (sym mine) ∙ found;
        written =
            let one_more = attempted-attempts jitter o t d h in
            let before = ap (λ (x : Text). attempts_at x h.attempts) mine in
            let now = ap (λ (x : Text). attempts_at x h'.attempts) mine in
            omega (arith, one_more, before, now, c.written, attempts);
        few = omega (arith, attempts, ltb→lt d.attempts 10 open_still);
        state = state ∙ ap (λ (n : ℕ). if ltb n 10 then pending else failed) (sym attempts);
      })
]

refused_each-IsCounted :
    (jitter : ℕ → ℕ) (o : Outcome) (id : Text) (ts : List ℕ) (base : ℕ) (h : Hooks)
    → was_delivered o ≡ false
    → IsCounted id base h
    → IsCounted id base (refused_each jitter o id ts h)
unfolding refused_each
refused_each-IsCounted jitter o id [] base h refused c = c
refused_each-IsCounted jitter o id (t ∷ ts) base h refused c =
    refused_each-IsCounted jitter o id ts base (refused_at jitter o id t h) refused
      (refused_at-IsCounted jitter o id t base h refused c)

fresh-IsCounted :
    (d : DeliveryRow) (h : Hooks)
    → row_of d.id h ≡ some d
    → d.state ≡ pending
    → d.attempts ≡ 0
    → IsCounted d.id (attempts_at d.id h.attempts) h
fresh-IsCounted d h there new fresh = record {
  left = d;
  there = there;
  written = omega (arith, fresh);
  few = omega (arith, fresh);
  state = ground (arith, new, fresh);
}

-- A new delivery that its receiver never takes is attempted ten times at most, at whatever moments it is
-- tried if it is due then: each attempt is written, its row counts them, it waits until the tenth and
-- has failed from then on, and then it is not due at any moment.
pub ten_attempts :
    (jitter : ℕ → ℕ) (o : Outcome) (d : DeliveryRow) (ts : List ℕ) (h : Hooks)
    → was_delivered o ≡ false
    → row_of d.id h ≡ some d
    → d.state ≡ pending
    → d.attempts ≡ 0
    → let h' = refused_each jitter o d.id ts h in
      (left : DeliveryRow) × (row_of d.id h' ≡ some left)
      × (attempts_at d.id h'.attempts ≡ attempts_at d.id h.attempts + left.attempts)
      × (left.attempts ≤ 10)
      × (left.state ≡ (if ltb left.attempts 10 then pending else failed))
      × ((t : ℕ) → is_due t h' left && leb 10 left.attempts ≡ false)
unfolding is_due is_pending
ten_attempts jitter o d ts h refused there new fresh =
    let c =
      refused_each-IsCounted jitter o d.id ts (attempts_at d.id h.attempts) h refused
        (fresh-IsCounted d h there new fresh) in
    (
      c.left,
      c.there,
      c.written,
      c.few,
      c.state,
      λ t. over t (refused_each jitter o d.id ts h) c.left c.state,
    )
