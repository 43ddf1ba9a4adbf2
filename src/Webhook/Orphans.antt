-- ===== src/Webhook/Orphans.antt =====
-- What deleting an endpoint leaves of its deliveries, and an attempt that was under way.
use sucopay.Prelude.{
  ℕ, ◌+◌, ◌≤◌, ◌≡◌, refl, Bool, true, some, inl, inr, false, not, ◌&&◌, List, [], ◌∷◌, any, ltb, ok,
  arith, Option-cases, Bool-cases, if◌then◌else◌,
}
use sucopay.Text.{Text, text_eq, text_eq_refl, text_eq→eq}
use sucopay.Webhook.{
  Hooks, EndpointRow, DeliveryRow, Outcome, pending, failed, is_pending, was_delivered,
}
use sucopay.Webhook.Schedule.{next_attempt, retried}
use sucopay.Webhook.Endpoints.{
  is_endpoint, is_of, update_rows, change_endpoint, waits_for, given_up, closed, delete, find_row,
}
use sucopay.Webhook.Deliveries.{takes, is_due, is_old, left_as, attempted}

none_waits :
    (id : Text) (ds : List DeliveryRow)
    → any (waits_for id) (update_rows (waits_for id) given_up ds) ≡ false
unfolding update_rows waits_for given_up is_pending
none_waits id [] = refl
none_waits id (d ∷ ds) = ground (arith, none_waits id ds)

closed-takes :
    (account id : Text) (now : ℕ) (es : List EndpointRow)
    → any (λ e. takes id e && not (is_endpoint account id e)) es ≡ false
    → any (takes id) (update_rows (is_endpoint account id) (closed now) es) ≡ false
unfolding update_rows takes closed is_endpoint is_of
closed-takes account id now [] h = refl
closed-takes account id now (e ∷ es) h = ground (arith, closed-takes account id now es)

delete-endpoints :
    (account id : Text) (now : ℕ) (h h' : Hooks)
    → delete account id now h ≡ ok h'
    → h'.endpoints ≡ update_rows (is_endpoint account id) (closed now) h.endpoints
unfolding delete change_endpoint
delete-endpoints account id now h h' did = ground arith

-- An endpoint that was deleted, whose identifier is its own, has no delivery that waits, and none of
-- its deliveries is due at any moment.
pub delete-none_pending :
    (account id : Text) (now : ℕ) (h h' : Hooks)
    → any (λ e. takes id e && not (is_endpoint account id e)) h.endpoints ≡ false
    → delete account id now h ≡ ok h'
    → (any (waits_for id) h'.deliveries ≡ false)
      × ((t : ℕ) (d : DeliveryRow) → d.endpoint ≡ id → is_due t h' d ≡ false)
unfolding delete change_endpoint is_due
delete-none_pending account id now h h' alone did =
    let e : h'.endpoints ≡ update_rows (is_endpoint account id) (closed now) h.endpoints =
      ground arith in
    let ds : h'.deliveries ≡ update_rows (waits_for id) given_up h.deliveries = ground arith in
    let gone = closed-takes account id now h.endpoints alone in
    (
      rw ds (none_waits id h.deliveries),
      λ t d of_it.
          let shut : any (takes d.endpoint) h'.endpoints ≡ false = rw (of_it, e) gone in
          ground (arith, shut),
    )

-- A row that is found by its identifier is found still, changed, once rows were changed that kept theirs.
pub find_row-update :
    (id : Text) (test : DeliveryRow → Bool) (change : DeliveryRow → DeliveryRow)
    (rows : List DeliveryRow) (row : DeliveryRow)
    → ((r : DeliveryRow) → (change r).id ≡ r.id)
    → find_row (λ (r : DeliveryRow). text_eq r.id id) rows ≡ some row
    → find_row (λ (r : DeliveryRow). text_eq r.id id) (update_rows test change rows)
      ≡ some (if test row then change row else row)
unfolding find_row update_rows
find_row-update id test change [] row same h = absurd (ground arith)
find_row-update id test change (r ∷ rows) row same h = elim (Bool-cases (text_eq r.id id)) [
  | inl e ↦ ground (arith, e, same r)
  | inr e ↦ ground (arith, e, same r, find_row-update id test change rows row same)
]

pub find_row-id :
    (id : Text) (rows : List DeliveryRow) (row : DeliveryRow)
    → find_row (λ (r : DeliveryRow). text_eq r.id id) rows ≡ some row
    → row.id ≡ id
unfolding find_row
find_row-id id [] row h = absurd (ground arith)
find_row-id id (r ∷ rows) row h = elim (Bool-cases (text_eq r.id id)) [
  | inl e ↦ ground (arith, e, text_eq→eq r.id id e)
  | inr e ↦ find_row-id id rows row (ground (arith, e))
]

pub left_as-kept :
    (jitter : ℕ → ℕ) (now : ℕ) (o : Outcome) (a : ℕ) (d : DeliveryRow)
    → ((left_as jitter now o a d).id ≡ d.id) × ((left_as jitter now o a d).endpoint ≡ d.endpoint)
unfolding left_as
left_as-kept jitter now o a d = elim (Bool-cases (was_delivered o)) [
  | inl m ↦ ground (arith, m)
  | inr m ↦ elim (Option-cases (next_attempt jitter a now)) [
    | inl n ↦ ground (arith, m, n)
    | inr (at, n) ↦ ground (arith, m, n)
  ]
]

pub left_as-refused :
    (jitter : ℕ → ℕ) (now : ℕ) (o : Outcome) (a : ℕ) (d : DeliveryRow)
    → was_delivered o ≡ false
    → let left = left_as jitter now o a d in
      (left.attempts ≡ a) × (left.state ≡ (if ltb 0 a && ltb a 10 then pending else failed))
unfolding left_as
left_as-refused jitter now o a d refused =
    let again = retried jitter a now in
    elim (Option-cases (next_attempt jitter a now)) [
      | inl m ↦ ground (arith, again, m)
      | inr (at, m) ↦ ground (arith, again, m)
    ]

-- What the table holds of a delivery after an attempt at it that was refused.
pub attempted-found :
    (jitter : ℕ → ℕ) (now : ℕ) (o : Outcome) (d row : DeliveryRow) (h : Hooks)
    → was_delivered o ≡ false
    → find_row (λ (r : DeliveryRow). text_eq r.id d.id) h.deliveries ≡ some row
    → (left : DeliveryRow) × (find_row
          (λ (r : DeliveryRow). text_eq r.id d.id)
          (attempted jitter d o now h).deliveries
        ≡ some left)
      × (left.endpoint ≡ row.endpoint)
      × (left.attempts ≡ d.attempts + 1)
      × (left.state ≡ (if ltb (d.attempts + 1) 10 then pending else failed))
unfolding attempted
attempted-found jitter now o d row h refused there =
    let a = d.attempts + 1 in
    let change = left_as jitter now o a in
    let found =
      find_row-update d.id (λ (r : DeliveryRow). text_eq r.id d.id) change h.deliveries row
        (λ r. (left_as-kept jitter now o a r).0) there in
    let (attempts, state) = left_as-refused jitter now o a row refused in
    let this : text_eq row.id d.id ≡ true =
      rw (find_row-id d.id h.deliveries row there) (text_eq_refl d.id) in
    (
      change row,
      ground (arith, found, this),
      (left_as-kept jitter now o a row).1,
      attempts,
      ground (arith, state),
    )

given_up-id : (r : DeliveryRow) → (given_up r).id ≡ r.id
unfolding given_up
given_up-id r = refl

given_up-endpoint : (r : DeliveryRow) → (given_up r).endpoint ≡ r.endpoint
unfolding given_up
given_up-endpoint r = refl

-- A delivery of an endpoint that is deleted while an attempt at it is under way, where the attempt fails
-- for the first to the ninth time, waits again in the table: it is due at no moment, and however old it
-- gets it is not swept.
pub attempted-orphan :
    (account id : Text) (now later : ℕ) (jitter : ℕ → ℕ) (o : Outcome) (d : DeliveryRow)
    (h h' : Hooks)
    → any (λ e. takes id e && not (is_endpoint account id e)) h.endpoints ≡ false
    → find_row (λ (r : DeliveryRow). text_eq r.id d.id) h.deliveries ≡ some d
    → d.endpoint ≡ id
    → delete account id now h ≡ ok h'
    → was_delivered o ≡ false
    → d.attempts ≤ 8
    → let h'' = attempted jitter d o later h' in
      (left : DeliveryRow) × (find_row (λ (r : DeliveryRow). text_eq r.id d.id) h''.deliveries
        ≡ some left)
      × (left.state ≡ pending)
      × ((t : ℕ) → is_due t h'' left ≡ false)
      × ((t : ℕ) → is_old t left ≡ false)
unfolding attempted is_old is_due is_pending delete change_endpoint
attempted-orphan account id now later jitter o d h h' alone there of_it did refused few =
    let gone = closed-takes account id now h.endpoints alone in
    let e : h'.endpoints ≡ update_rows (is_endpoint account id) (closed now) h.endpoints =
      delete-endpoints account id now h h' did in
    let ds : h'.deliveries ≡ update_rows (waits_for id) given_up h.deliveries = ground arith in
    let given : DeliveryRow = if waits_for id d then given_up d else d in
    let still : find_row (λ (r : DeliveryRow). text_eq r.id d.id) h'.deliveries ≡ some given =
      rw ds (find_row-update d.id (waits_for id) given_up h.deliveries d given_up-id there) in
    let (left, found, endpoint, attempts, state) =
      attempted-found jitter later o d given h' refused still in
    let of_d : left.endpoint ≡ id = ground (arith, endpoint, of_it, given_up-endpoint d) in
    let shut : any (takes left.endpoint) h'.endpoints ≡ false = rw (of_d, e) gone in
    let waits : left.state ≡ pending = ground (arith, state) in
    (left, found, waits, λ t. ground (arith, shut), λ t. ground (arith, waits))
