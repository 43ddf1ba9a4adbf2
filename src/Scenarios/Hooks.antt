-- ===== src/Scenarios/Hooks.antt =====
-- An endpoint, a delivery to it, and its deletion.
use sucopay.Prelude.{
  ℕ, ◌+◌, ◌*◌, ◌/◌, ◌≡◌, ◌≤◌, ◌↔◌, refl, true, false, not, ◌&&◌, [], ◌∷◌, any, leb, ltb, is_some,
  pairwise, none, some, Result, ok, err, if◌then◌else◌, arith,
}
use sucopay.Text.{text_eq, codes}
use sucopay.Webhook.{
  Hooks, HookError, EndpointRow, DeliveryRow, Outcome, scope_account, pending, failed,
  was_delivered, second, hour,
}
use sucopay.Webhook.Schedule.{next_attempt, next_attempt_lem}
use sucopay.Webhook.Endpoints.{is_endpoint, waits_for, find_row, delete}
use sucopay.Webhook.Deliveries.{takes, is_due, is_old, attempted, due}
use sucopay.Webhook.Orphans.{delete-none_pending, attempted-orphan}
use sucopay.Webhook.Refusals.{row_of, attempts_at, refused_each, ten_attempts}
use sucopay.Webhook.Once.{apart, numbered, due-apart}
use sucopay.Scenarios.Samples.{sample_id, noon}

abbrev tenth : ℕ → ℕ
tenth w = w / 10

next_attempt_lem_example :
    ((is_some (next_attempt tenth 3 noon) ≡ true) ↔ ((1 ≤ 3) × (3 ≤ 9)))
    × ((at : ℕ)
        → next_attempt tenth 3 noon ≡ some at
        → (noon + 5 * second ≤ at) × (at ≤ noon + 24 * hour + 24 * hour / 10))
next_attempt_lem_example = next_attempt_lem tenth 3 noon (λ w. omega arith)

abbrev endpoint : EndpointRow
endpoint = record {
  id = codes "endpoint";
  scope = scope_account;
  account = some (codes "account");
  url = codes "https://shop.example";
  description = [];
  events = none;
  enabled = true;
  secret = codes "sealed";
  key_id = codes "k";
  previous_secret = none;
  previous_until = none;
  created_at = noon;
  deleted_at = none;
}

abbrev delivery : DeliveryRow
delivery = record {
  id = codes "delivery";
  endpoint = codes "endpoint";
  account = codes "account";
  payment = some sample_id;
  event = codes "payment.succeeded";
  occurred_at = noon;
  payload = codes "{}";
  state = pending;
  attempts = 0;
  next_at = some noon;
  delivered_at = none;
  created_at = noon;
  seq = 1;
}

abbrev later : DeliveryRow
later = record delivery { id = codes "later"; seq = 2 }

abbrev hooks : Hooks
hooks = record {
  endpoints = endpoint ∷ [];
  deliveries = delivery ∷ later ∷ [];
  attempts = [];
  outbox = [];
  next_seq = 3;
}

abbrev got : Result HookError Hooks → Hooks
got (ok h) = h
got (err e) = hooks

abbrev deleted : Hooks
deleted = got (delete (codes "account") (codes "endpoint") (noon + 1) hooks)

did_delete : delete (codes "account") (codes "endpoint") (noon + 1) hooks ≡ ok deleted
unfolding delete text_eq
did_delete = refl

the_only_one :
    any
      (λ e. takes (codes "endpoint") e && not (is_endpoint (codes "account") (codes "endpoint") e))
      hooks.endpoints
    ≡ false
unfolding takes is_endpoint text_eq
the_only_one = refl

delete-none_pending_example :
    (any (waits_for (codes "endpoint")) deleted.deliveries ≡ false)
    × ((t : ℕ) (d : DeliveryRow) → d.endpoint ≡ codes "endpoint" → is_due t deleted d ≡ false)
delete-none_pending_example =
    delete-none_pending (codes "account") (codes "endpoint") (noon + 1) hooks deleted the_only_one
      did_delete

abbrev refusal : Outcome
refusal = record { status = 500; reason = []; response = []; took = 0 }

was_refused : was_delivered refusal ≡ false
unfolding was_delivered
was_refused = refl

found_it : find_row (λ (r : DeliveryRow). text_eq r.id delivery.id) hooks.deliveries ≡ some delivery
unfolding find_row text_eq
found_it = refl

attempted-orphan_example :
    let h'' = attempted tenth delivery refusal (noon + 2) deleted in
    (left : DeliveryRow) × (find_row (λ (r : DeliveryRow). text_eq r.id delivery.id) h''.deliveries
      ≡ some left)
    × (left.state ≡ pending)
    × ((t : ℕ) → is_due t h'' left ≡ false)
    × ((t : ℕ) → is_old t left ≡ false)
attempted-orphan_example =
    attempted-orphan (codes "account") (codes "endpoint") (noon + 1) (noon + 2) tenth refusal
      delivery hooks deleted the_only_one found_it refl did_delete was_refused (omega arith)

ten_attempts_example :
    let h' =
      refused_each tenth refusal delivery.id
        (noon ∷ (noon + hour) ∷ (noon + 9 * hour) ∷ [])
        hooks in
    (left : DeliveryRow) × (row_of delivery.id h' ≡ some left)
    × (attempts_at delivery.id h'.attempts ≡ attempts_at delivery.id [] + left.attempts)
    × (left.attempts ≤ 10)
    × (left.state ≡ (if ltb left.attempts 10 then pending else failed))
    × ((t : ℕ) → is_due t h' left && leb 10 left.attempts ≡ false)
unfolding row_of
ten_attempts_example =
    ten_attempts tenth refusal delivery (noon ∷ (noon + hour) ∷ (noon + 9 * hour) ∷ []) hooks
      was_refused found_it refl refl

two_numbers : pairwise numbered hooks.deliveries ≡ true
unfolding numbered
two_numbers = refl

due-apart_example : pairwise apart (due (noon + 1) 32 4 hooks) ≡ true
due-apart_example = due-apart (noon + 1) 32 4 hooks two_numbers
