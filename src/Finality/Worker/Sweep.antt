-- ===== src/Finality/Worker/Sweep.antt =====
-- internal/finality/worker.go: the payments and refunds that the clock has passed by.
use sucopay.Prelude.{List, [], ◌∷◌, Option, none, some, Result, ok, err, ◌>>=◌, map_err}
use sucopay.Payment.Lifecycle.{await_finality, expire}
use sucopay.Payment.Refund
use sucopay.Payment.Store.{Database, StoreError, problems}
use sucopay.Payment.Store.Dues.{
  Due, RefundDue, overdue, unsettled, overdue_refunds, unsettled_refunds,
}
use sucopay.Observe.Cursor.{Row}
use sucopay.Finality.Worker.{Setting, per_round, told, returned}

-- A database, and the error that the work on it stopped at.
pub record Swept : Type 0 where
  pub database : Database
  pub failed : Option StoreError

-- One transaction after another, up to the first that is refused.
unfoldable pub each_one {ℓ} :
    {A : Type ℓ} → (A → Database → Result StoreError Database) → List A → Database → Swept
each_one f [] d = record { database = d; failed = none }
each_one f (x ∷ xs) d = elim (f x d) [
  | err e ↦ record { database = d; failed = some e }
  | ok d' ↦ each_one f xs d'
]

-- What was read, and what is done with each of it.
unfoldable pub stage {ℓ} :
    {A : Type ℓ}
    → Result StoreError (List A)
    → (A → Database → Result StoreError Database)
    → Database
    → Swept
unfolding each_one
stage (err e) f d = record { database = d; failed = some e }
stage (ok xs) f d = each_one f xs d

unfoldable pub and_then : Swept → (Database → Swept) → Swept
and_then s next = elim s.failed [ some e ↦ s | none ↦ next s.database ]

unfoldable pub past_deadline : Setting → Due → Database → Result StoreError Database
unfolding await_finality told
past_deadline w one d = map_err problems (await_finality w.now one.payment) >>= λ p.
    told w one.account p one.payment_at d

unfoldable pub expired : Setting → Due → Database → Result StoreError Database
unfolding expire told
expired w one d =
    map_err problems (expire one.payment) >>= λ p. told w one.account p one.payment_at d

unfoldable pub refund_past_deadline : Setting → RefundDue → Database → Result StoreError Database
unfolding Refund.await_finality returned
refund_past_deadline w one d = map_err problems (Refund.await_finality one.refund) >>= λ r.
    returned w one.account r one.refund_at d

unfoldable pub refund_expired : Setting → RefundDue → Database → Result StoreError Database
unfolding Refund.expire returned
refund_expired w one d =
    map_err problems (Refund.expire one.refund) >>= λ r. returned w one.account r one.refund_at d

-- `sweptRefunds`
unfoldable pub swept_refunds : Setting → List Row → Database → Swept
unfolding and_then stage overdue_refunds unsettled_refunds refund_past_deadline refund_expired
swept_refunds w cursors d =
    and_then (stage (overdue_refunds w.network w.now per_round d) (refund_past_deadline w) d)
      λ d'. stage (unsettled_refunds cursors w.network per_round d') (refund_expired w) d'

-- `swept`
unfoldable pub swept : Setting → List Row → Database → Swept
unfolding and_then stage overdue unsettled past_deadline expired swept_refunds
swept w cursors d =
    and_then
      (and_then (stage (overdue w.network w.now per_round d) (past_deadline w) d)
        λ d'. stage (unsettled cursors w.network per_round d') (expired w) d')
      (swept_refunds w cursors)
