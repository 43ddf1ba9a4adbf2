-- ===== src/Webhook/Deliveries.antt =====
-- internal/webhook/postgres.go: what is sent, and what came of it. The JSON of an envelope is the
-- parameter `envelope`, and the identifiers that are minted are a function of the number of the row.
use sucopay.Prelude.{
  ℕ, zero, suc, ◌+◌, Bool, true, false, not, ◌&&◌, ◌||◌, List, [], ◌∷◌, ◌++◌, map, Option, none,
  some, is_some, any, keep, sort_by, take, length, ltb, leb, ◌==◌, if◌then◌else◌, is_empty, Result,
  ok, err, ◌>>=◌, ◌>>◌,
}
use sucopay.Text.{Text, text_eq, codes}
use sucopay.Webhook.{
  Hooks, EndpointRow, DeliveryRow, AttemptRow, Queued, Outcome, Scope, scope_deployment, HookError,
  not_found, disabled, still_pending, not_json, pending, delivered, failed, is_pending,
  was_delivered, receives, max_listed,
}
use sucopay.Webhook.Schedule.{next_attempt}
use sucopay.Webhook.Endpoints.{find_row, update_rows, listed_before, get}

-- What the text of an envelope is, by type, moment, account and data.
abbrev pub Enveloping : Type 0
Enveloping = Text → ℕ → Text → Text → Text

unfoldable pub is_deployment : Scope → Bool
is_deployment scope_deployment = true
is_deployment _ = false

-- `receiving`
unfoldable pub receiving : Text → Text → Hooks → List EndpointRow
unfolding listed_before is_deployment receives
receiving account event h =
    keep (λ (e : EndpointRow). receives e event)
      (sort_by listed_before (
        keep
          (λ (e : EndpointRow).
            e.enabled
            && (not (is_some e.deleted_at)
                && (elim e.account [ none ↦ false | some a ↦ text_eq a account ]
                    || is_deployment e.scope)))
          h.endpoints))

-- The rows that one event becomes, one for each endpoint that receives it.
unfoldable pub rows_of :
    Enveloping → (ℕ → Text) → ℕ → Queued → ℕ → List EndpointRow → List DeliveryRow
rows_of envelope ids now q seq [] = []
rows_of envelope ids now q seq (e ∷ es) =
    record {
      id = ids seq;
      endpoint = e.id;
      account = q.row.account;
      payment = some q.row.payment;
      event = q.row.event.name;
      occurred_at = q.occurred_at;
      payload = envelope q.row.event.name q.occurred_at q.row.account q.row.event.payload;
      state = pending;
      attempts = 0;
      next_at = some now;
      delivered_at = none;
      created_at = now;
      seq = seq;
    }
    ∷ rows_of envelope ids now q (seq + 1) es

-- One event, taken from the outbox.
unfoldable pub expanded :
    Enveloping → (ℕ → Text) → ℕ → Queued → List Queued → Hooks → Result HookError Hooks
unfolding receiving rows_of
expanded envelope ids now q rest h =
    let to = receiving q.row.account q.row.event.name h in
    if not (is_empty to) && not q.row.event.is_json
    then err not_json
    else ok (record h {
      deliveries = h.deliveries ++ rows_of envelope ids now q h.next_seq to;
      outbox = rest;
      next_seq = h.next_seq + length to;
    })

-- `Expand`, with `expandOne`, for at most a number of events; an event that fails leaves those before
-- it expanded
unfoldable pub expand : Enveloping → (ℕ → Text) → ℕ → ℕ → Hooks → Hooks × Option HookError
unfolding expanded
expand envelope ids now zero h = (h, none)
expand envelope ids now (suc limit) h = elim h.outbox [
  | [] ↦ (h, none)
  | q ∷ rest ↦ elim (expanded envelope ids now q rest h) [
    | err e ↦ (h, some e)
    | ok h' ↦ expand envelope ids now limit h'
  ]
]

-- `p.payment_id is not distinct from d.payment_id`
unfoldable pub same_payment : Option Text → Option Text → Bool
same_payment none none = true
same_payment (some p) (some q) = text_eq p q
same_payment none (some q) = false
same_payment (some p) none = false

-- A delivery that goes before another: to the same endpoint, of the same payment.
unfoldable pub goes_before : DeliveryRow → DeliveryRow → Bool
unfolding same_payment is_pending
goes_before d p =
    text_eq p.endpoint d.endpoint
    && (same_payment p.payment d.payment && (is_pending p.state && ltb p.seq d.seq))

-- An endpoint that its deliveries go to.
unfoldable pub takes : Text → EndpointRow → Bool
takes id e = text_eq e.id id && (e.enabled && not (is_some e.deleted_at))

unfoldable pub is_due : ℕ → Hooks → DeliveryRow → Bool
unfolding is_pending takes goes_before
is_due now h d =
    is_pending d.state
    && (elim d.next_at [ none ↦ false | some at ↦ leb at now ]
        && (any (takes d.endpoint) h.endpoints && not (any (goes_before d) h.deliveries)))

-- `order by next_at, seq`
unfoldable pub due_before : DeliveryRow → DeliveryRow → Bool
due_before x y = elim x.next_at [
  | none ↦ true
  | some a ↦ elim y.next_at [ none ↦ false | some b ↦ ltb a b || a == b && leb x.seq y.seq ]
]

-- How many of an endpoint's come before a delivery: `row_number() over (partition by d.endpoint_id)`.
unfoldable pub per_endpoint : ℕ → List DeliveryRow → List DeliveryRow → List DeliveryRow
per_endpoint most before [] = []
per_endpoint most before (d ∷ ds) =
    let rest = per_endpoint most (d ∷ before) ds in
    if ltb (length (keep (λ (x : DeliveryRow). text_eq x.endpoint d.endpoint) before)) most
    then d ∷ rest
    else rest

-- `Due`
unfoldable pub due : ℕ → ℕ → ℕ → Hooks → List DeliveryRow
unfolding is_due due_before per_endpoint
due now limit most h =
    take limit (per_endpoint most [] (sort_by due_before (keep (is_due now h) h.deliveries)))

-- What an attempt leaves of a delivery that was read.
unfoldable pub left_as : (ℕ → ℕ) → ℕ → Outcome → ℕ → DeliveryRow → DeliveryRow
unfolding was_delivered next_attempt
left_as jitter now o attempts row =
    if was_delivered o
    then record row {
      state = delivered;
      attempts = attempts;
      next_at = none;
      delivered_at = some now;
    }
    else elim (next_attempt jitter attempts now) [
      | none ↦ record row {
        state = failed;
        attempts = attempts;
        next_at = none;
        delivered_at = none;
      }
      | some again ↦ record row {
        state = pending;
        attempts = attempts;
        next_at = some again;
        delivered_at = none;
      }
    ]

-- `Attempted`, of a delivery as it was read
unfoldable pub attempted : (ℕ → ℕ) → DeliveryRow → Outcome → ℕ → Hooks → Hooks
unfolding left_as update_rows
attempted jitter d o now h = record h {
  attempts =
      h.attempts
      ++ record {
        delivery = d.id;
        at = now;
        status = if o.status == 0 then none else some o.status;
        reason = o.reason;
        response = o.response;
        took = o.took;
      }
        ∷ [];
  deliveries =
      update_rows (λ (row : DeliveryRow). text_eq row.id d.id)
        (left_as jitter now o (d.attempts + 1)) h.deliveries;
}

unfoldable pub is_old : ℕ → DeliveryRow → Bool
unfolding is_pending
is_old before d = not (is_pending d.state) && ltb d.created_at before

-- `Sweep`
unfoldable pub sweep : ℕ → ℕ → Hooks → Hooks
unfolding is_old
sweep before limit h =
    let swept = take limit (
      sort_by (λ (x : DeliveryRow) (y : DeliveryRow). leb x.created_at y.created_at)
        (keep (is_old before) h.deliveries)) in
    let gone = λ (id : Text). any (λ (d : DeliveryRow). text_eq d.id id) swept in
    record h {
      deliveries = keep (λ (d : DeliveryRow). not (gone d.id)) h.deliveries;
      attempts = keep (λ (a : AttemptRow). not (gone a.delivery)) h.attempts;
    }

abbrev pub endpoint_test : Text
endpoint_test = codes "endpoint.test"

-- A test of an endpoint that is on its way.
unfoldable pub is_tested : Text → DeliveryRow → Bool
unfolding is_pending
is_tested id d = text_eq d.endpoint id && (text_eq d.event endpoint_test && is_pending d.state)

-- `Test`
unfoldable pub test :
    Enveloping → (ℕ → Text) → Text → Text → ℕ → Hooks → Result HookError (Text × Hooks)
unfolding get is_tested
test envelope ids account id now h = do
  e ← get account id h
  if not e.enabled
      then err disabled
      else if any (is_tested id) h.deliveries
      then err still_pending
      else ok (
        ids h.next_seq,
        record h {
          deliveries =
              h.deliveries
              ++ record {
                id = ids h.next_seq;
                endpoint = id;
                account = account;
                payment = none;
                event = endpoint_test;
                occurred_at = now;
                payload = envelope endpoint_test now account (codes "{}");
                state = pending;
                attempts = 0;
                next_at = some now;
                delivered_at = none;
                created_at = now;
                seq = h.next_seq;
              }
                ∷ [];
          next_seq = h.next_seq + 1;
        },
      )

-- A delivery of an endpoint.
unfoldable pub is_delivery : Text → Text → DeliveryRow → Bool
is_delivery endpoint id d = text_eq d.id id && text_eq d.endpoint endpoint

-- `Resend`
unfoldable pub resend : Text → Text → Text → ℕ → Hooks → Result HookError Hooks
unfolding get is_delivery is_pending find_row update_rows
resend account endpoint id now h = do
  get account endpoint h
  elim (find_row (is_delivery endpoint id) h.deliveries) [
    | none ↦ err not_found
    | some d ↦
        if is_pending d.state
        then err still_pending
        else ok (record h {
          deliveries =
              update_rows (is_delivery endpoint id)
                (λ (row : DeliveryRow). record row {
                  state = pending;
                  next_at = some now;
                  delivered_at = none;
                })
                h.deliveries;
        })
  ]

-- `Deliveries`: the last ones of an endpoint, the newest first, each with its attempts in order
unfoldable pub deliveries :
    Text → Text → Hooks → Result HookError (List (DeliveryRow × List AttemptRow))
unfolding get
deliveries account id h =
    get account id h
    >> ok (
        map
          (λ (d : DeliveryRow). (
            d,
            sort_by (λ (x : AttemptRow) (y : AttemptRow). leb x.at y.at)
                (keep (λ (a : AttemptRow). text_eq a.delivery d.id) h.attempts),
          ))
          (take max_listed (
            sort_by (λ (x : DeliveryRow) (y : DeliveryRow). leb y.seq x.seq)
              (keep (λ (d : DeliveryRow). text_eq d.endpoint id) h.deliveries))))
