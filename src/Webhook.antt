-- ===== src/Webhook.antt =====
-- internal/webhook: the endpoints that a merchant is told at, and the deliveries to them (endpoint.go,
-- delivery.go). Base64 and the sealing of secrets are not in it: a secret is what it was sealed as.
pub mod Schedule
pub mod Endpoints
pub mod Deliveries
pub mod Worker
pub mod Once
pub mod Orphans
pub mod Refusals
use sucopay.Prelude.{
  ℕ, ◌*◌, Bool, true, false, not, ◌&&◌, List, [], ◌∷◌, Option, none, some, any, leb, ltb,
}
use sucopay.Text.{Text, text_eq, codes}
use sucopay.Payment.Store.{OutboxRow}

-- A second and an hour in nanoseconds.
abbrev pub second : ℕ
second = 1_000_000_000

abbrev pub hour : ℕ
hour = 3600 * second

-- `MaxEndpoints`, `RotationGrace`, `Retention`, `MaxListed`
abbrev pub max_endpoints : ℕ
max_endpoints = 8

abbrev pub rotation_grace : ℕ
rotation_grace = 24 * hour

abbrev pub retention : ℕ
retention = 30 * 24 * hour

abbrev pub max_listed : ℕ
max_listed = 100

-- `Scope`
pub data Scope : Type 0 where
  scope_account scope_deployment : Scope

-- A row of webhook_endpoints; the events are none where every event is sent.
pub record EndpointRow : Type 0 where
  pub id : Text
  pub scope : Scope
  pub account : Option Text
  pub url : Text
  pub description : Text
  pub events : Option (List Text)
  pub enabled : Bool
  pub secret : Text
  pub key_id : Text
  pub previous_secret : Option Text
  pub previous_until : Option ℕ
  pub created_at : ℕ
  pub deleted_at : Option ℕ

-- `Pending`, `Delivered`, `Failed`
pub data State : Type 0 where
  pending delivered failed : State

unfoldable pub is_pending : State → Bool
is_pending pending = true
is_pending _ = false

-- A row of webhook_deliveries; the rows stand in the order of their numbers `seq`.
pub record DeliveryRow : Type 0 where
  pub id : Text
  pub endpoint : Text
  pub account : Text
  pub payment : Option Text
  pub event : Text
  pub occurred_at : ℕ
  pub payload : Text
  pub state : State
  pub attempts : ℕ
  pub next_at : Option ℕ
  pub delivered_at : Option ℕ
  pub created_at : ℕ
  pub seq : ℕ

-- `Outcome`; a status of 0 is no answer
pub record Outcome : Type 0 where
  pub status : ℕ
  pub reason : Text
  pub response : Text
  pub took : ℕ

-- `Outcome.Delivered`
unfoldable pub was_delivered : Outcome → Bool
was_delivered o = leb 200 o.status && ltb o.status 300

-- A row of webhook_attempts.
pub record AttemptRow : Type 0 where
  pub delivery : Text
  pub at : ℕ
  pub status : Option ℕ
  pub reason : Text
  pub response : Text
  pub took : ℕ

-- An event that waits in the outbox, with when it happened.
pub record Queued : Type 0 where
  pub row : OutboxRow
  pub occurred_at : ℕ

-- The tables of this package, with the number that the next delivery gets.
pub record Hooks : Type 0 where
  pub endpoints : List EndpointRow
  pub deliveries : List DeliveryRow
  pub attempts : List AttemptRow
  pub outbox : List Queued
  pub next_seq : ℕ

-- The errors of this package.
pub data HookError : Type 0 where
  not_found too_many disabled still_pending not_json sealed : HookError

-- `Endpoint.Receives`
unfoldable pub receives : EndpointRow → Text → Bool
receives e event =
    e.enabled && elim e.events [ none ↦ true | some events ↦ any (text_eq event) events ]
