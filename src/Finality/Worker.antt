-- ===== src/Finality/Worker.antt =====
-- internal/finality/worker.go: what a worker does with one recorded transfer, and with what the
-- endpoints say of it. Each call that writes is one transaction, which is refused or done.
pub mod Round
pub mod Agreed
pub mod Patience
pub mod Stages
pub mod Expiry
pub mod Sweep
use sucopay.Prelude.{
  ℕ, ◌+◌, ◌*◌, ◌-◌, min, Bool, true, false, not, ◌&&◌, ◌||◌, List, [], ◌∷◌, ◌++◌, map, Option, none,
  some, ltb, ◌==◌, if◌then◌else◌, Result, ok, err, ◌>>=◌, map_err,
}
use sucopay.Text.{Text, text_eq, codes}
use sucopay.Payment.Status
use sucopay.Payment.Status.{Status}
use sucopay.Payment.RefundStatus
use sucopay.Payment.RefundStatus.{RefundStatus}
use sucopay.Payment.Problem.{Problems}
use sucopay.Payment.Aggregate.{Payment}
use sucopay.Payment.Lifecycle.{succeed}
use sucopay.Payment.Refund.{Refund, settle}
use sucopay.Payment.Evidence.{Transfer}
use sucopay.Payment.Store.{Database, Revision, Event, StoreError, stale}
use sucopay.Payment.Store.Payments.{save}
use sucopay.Payment.Store.Refunds.{save_refund}
use sucopay.Payment.Store.Transfers.{matched_transfer, refund_transfer}
use sucopay.Payment.Store.Arrivals.{vanish_transfer}
use sucopay.Payment.Store.Queries.{Candidate}
use sucopay.Payment.Store.Dues.{RefundCandidate}
use sucopay.Finality.Ask.{
  Verdict, unset, final, waiting, elsewhere, gone, disagreed, unanswered, verdict_eq,
}

-- `maxSkip`, `staleAfter`, `perRound`
abbrev pub max_skip : ℕ
max_skip = 60

abbrev pub stale_after : ℕ
stale_after = 3

abbrev pub per_round : ℕ
per_round = 100

-- `Network` without its endpoints, and what one round of it stands in: the database's clock and the
-- process's, and the JSON of the payments and the refunds that it tells of.
pub record Setting : Type 0 where
  pub network : Text
  pub misses : ℕ
  pub agreements : ℕ
  pub clock : ℕ
  pub now : ℕ
  pub told : Payment → Option Transfer → Text
  pub told_refund : Refund → Option Transfer → Text

-- `standing`: exactly one of the two pointers is set.
pub data Stand : Type 0 where
  for_payment : Candidate → Stand
  for_refund : RefundCandidate → Stand

pub record Standing : Type 0 where
  pub key : Text
  pub tx : Text
  pub height : ℕ
  pub hash : Text
  pub stand : Stand

-- `work`
unfoldable pub work : List Candidate → List RefundCandidate → List Standing
work payments refunds =
    map
      (λ (c : Candidate). record {
        key = c.key;
        tx = c.tx;
        height = c.block_height;
        hash = c.block_hash;
        stand = for_payment c;
      })
      payments
    ++ map
        (λ (c : RefundCandidate). record {
          key = c.key;
          tx = c.tx;
          height = c.block_height;
          hash = c.block_hash;
          stand = for_refund c;
        })
        refunds

-- `answer`
pub record Answer : Type 0 where
  pub verdict : Verdict
  pub rounds : ℕ
  pub skip : ℕ

-- In how many rounds in a row a verdict was given, after what the rounds before came to.
unfoldable pub rounds_of : Option Answer → Verdict → ℕ
unfolding verdict_eq
rounds_of none said = 1
rounds_of (some b) said = if verdict_eq b.verdict said then b.rounds + 1 else 1

-- What a round makes of a verdict.
unfoldable pub next_answer : Option Answer → Verdict → Answer
unfolding verdict_eq rounds_of
next_answer before said = record {
  verdict = said;
  rounds = rounds_of before said;
  skip = if verdict_eq said disagreed then min (rounds_of before said) max_skip else 0;
}

-- `Status.String`, and `RefundStatus.String`
unfoldable pub status_text : Status → Text
status_text Status.created = codes "created"
status_text Status.awaiting_payment = codes "awaiting_payment"
status_text Status.awaiting_finality = codes "awaiting_finality"
status_text Status.succeeded = codes "succeeded"
status_text Status.failed = codes "failed"
status_text Status.expired = codes "expired"
status_text (Status.other s) = s

unfoldable pub refund_status_text : RefundStatus → Text
refund_status_text RefundStatus.created = codes "created"
refund_status_text RefundStatus.awaiting_finality = codes "awaiting_finality"
refund_status_text RefundStatus.succeeded = codes "succeeded"
refund_status_text RefundStatus.expired = codes "expired"
refund_status_text (RefundStatus.other s) = s

-- `Announce`
unfoldable pub announce : (Payment → Option Transfer → Text) → Payment → Option Transfer → Event
unfolding status_text
announce told p t = record {
  name = codes "payment." ++ status_text p.status;
  payload = told p t;
  is_json = true;
}

-- `AnnounceRefund`
unfoldable pub announce_refund :
    (Refund → Option Transfer → Text) → Refund → Option Transfer → Event
unfolding RefundStatus.final refund_status_text
announce_refund told r t =
    if not (RefundStatus.final r.status)
    then record { name = []; payload = []; is_json = false }
    else record {
      name = codes "refund." ++ refund_status_text r.status;
      payload = told r t;
      is_json = true;
    }

-- A row that moved since it was read is left to the next round.
unfoldable pub unless_stale : Result StoreError Database → Database → Result StoreError Database
unless_stale (ok d') d = ok d'
unless_stale (err stale) d = ok d
unless_stale (err e) d = err e

-- `Worker.told`
unfoldable pub told : Setting → Text → Payment → Revision → Database → Result StoreError Database
unfolding announce matched_transfer save unless_stale
told w account p at d =
    unless_stale
      (save w.clock account (some p) at (announce w.told p (matched_transfer account p.id d)) d) d

-- `Worker.returned`
unfoldable pub returned : Setting → Text → Refund → Revision → Database → Result StoreError Database
unfolding announce_refund refund_transfer save_refund unless_stale
returned w account r at d =
    unless_stale
      (save_refund w.clock account (some r) at
        (announce_refund w.told_refund r (refund_transfer account r.payment_id r.id d)) d)
      d

-- `pay`
unfoldable pub pay : Setting → Candidate → Database → Result StoreError Database
unfolding succeed told
pay w c d = elim (succeed c.payment) [ err e ↦ ok d | ok p ↦ told w c.account p c.payment_at d ]

-- `Worker.settle`
unfoldable pub settle_refund : Setting → RefundCandidate → Database → Result StoreError Database
unfolding settle returned
settle_refund w c d = elim (settle c.refund) [
  | err e ↦ ok d
  | ok r ↦ returned w c.account r c.refund_at d
]

-- A final transfer, against what it stands for.
unfoldable pub decided_final : Setting → Stand → Database → Result StoreError Database
unfolding pay settle_refund
decided_final w (for_payment c) d = pay w c d
decided_final w (for_refund c) d = settle_refund w c d

-- `decided`
unfoldable pub decided : Setting → Standing → Answer → Database → Result StoreError Database
unfolding decided_final vanish_transfer
decided w c said d = elim said.verdict [
  | final ↦ decided_final w c.stand d
  | gone ↦
      if ltb said.rounds w.misses
      then ok d
      else vanish_transfer w.clock w.network c.key c.tx w.now d
  | _ ↦ ok d
]
