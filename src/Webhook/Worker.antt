-- ===== src/Webhook/Worker.antt =====
-- internal/webhook/worker.go: a round of the worker that sends. The sends of a round run beside one
-- another; each writes one delivery, and here they are written in the order in which they are due.
use sucopay.Prelude.{ℕ, ◌-◌, List, [], ◌∷◌, Option, none, some, Result, ok, err}
use sucopay.Text.{Text, codes}
use sucopay.Webhook.{Hooks, DeliveryRow, Outcome, HookError, retention}
use sucopay.Webhook.Endpoints.{secrets}
use sucopay.Webhook.Deliveries.{Enveloping, expand, sweep, due, attempted}

-- `expandPerRound`, `perRound`, `perEndpoint`, `sweepPerRound`
abbrev pub expand_per_round : ℕ
expand_per_round = 100

abbrev pub per_round : ℕ
per_round = 32

abbrev pub per_endpoint : ℕ
per_endpoint = 4

abbrev pub sweep_per_round : ℕ
sweep_per_round = 1000

-- What a round stands in: the moment, the cipher, the sender's answer to a delivery signed with some
-- secrets, the random share of a wait, and what an envelope and a minted identifier are.
pub record Sending : Type 0 where
  pub now : ℕ
  pub opened : Text → Option Text
  pub answer : List Text → DeliveryRow → Outcome
  pub jitter : ℕ → ℕ
  pub envelope : Enveloping
  pub ids : ℕ → Text

-- `send`: a secret that does not open is an attempt that failed
unfoldable pub send : Sending → DeliveryRow → Hooks → Result HookError Hooks
unfolding secrets attempted
send w d h = elim (secrets w.opened d.endpoint w.now h) [
  | ok keys ↦ ok (attempted w.jitter d (w.answer keys d) w.now h)
  | err HookError.sealed ↦ ok (
      attempted w.jitter d (record { status = 0; reason = codes "secret"; response = []; took = 0 })
        w.now h)
  | err e ↦ err e
]

-- The sends of a round; one that fails stops none of the others.
unfoldable pub send_each :
    Sending → List DeliveryRow → Hooks → Option HookError → Hooks × Option HookError
unfolding send
send_each w [] h failed = (h, failed)
send_each w (d ∷ ds) h failed = elim (send w d h) [
  | ok h' ↦ send_each w ds h' failed
  | err e ↦ send_each w ds h (some e)
]

unfoldable pub sent_round : Sending → Hooks × Option HookError → Hooks × Option HookError
unfolding sweep due send_each
sent_round w (h, some e) = (h, some e)
sent_round w (h, none) =
    let h' = sweep (w.now - retention) sweep_per_round h in
    send_each w (due w.now per_round per_endpoint h') h' none

-- `Round`
unfoldable pub round : Sending → Hooks → Hooks × Option HookError
unfolding expand sent_round
round w h = sent_round w (expand w.envelope w.ids w.now expand_per_round h)
