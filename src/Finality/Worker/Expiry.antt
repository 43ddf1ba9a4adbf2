-- ===== src/Finality/Worker/Expiry.antt =====
-- What the clock does to a payment that a recorded transfer may yet pay.
use sucopay.Prelude.{
  ℕ, ◌≡◌, ◌≢◌, refl, ◌⊎◌, inl, inr, true, false, ◌&&◌, List, [], ◌∷◌, take, keep, sort_by, any, All,
  some, ok, arith, Result-cases, Option-cases, Bool-cases, keep-All, map_ok-All, sort_by-All,
  take-All,
}
use sucopay.Text.{Text, text_eq, text_eq_iff}
use sucopay.Payment.Status.{expired}
use sucopay.Payment.Aggregate.{Payment, Stored, restore}
use sucopay.Payment.Lifecycle.{await_finality, move_to, expire}
use sucopay.Payment.Refund
use sucopay.Payment.Refund.{Refund}
use sucopay.Payment.Store.{Database, PaymentRow, Revision, write_outbox}
use sucopay.Payment.Store.Payments.{
  payment_row, is_payment, update_payment, saved_columns, save, save_payment,
}
use sucopay.Payment.Store.Refunds.{save_refund}
use sucopay.Payment.Store.Rows.{restore-id}
use sucopay.Payment.Store.Backed.{status_of, status_at}
use sucopay.Payment.Store.Queries.{read_columns, read_payment}
use sucopay.Payment.Store.Dues.{
  Due, due_of, due_before, is_unsettled, may_pay, overdue, unsettled, RefundDue, overdue_refunds,
  unsettled_refunds,
}
use sucopay.Observe.Cursor.{Row}
use sucopay.Finality.Worker.{Setting, per_round, unless_stale, told, returned}
use sucopay.Finality.Worker.Patience.{told-seen, returned-seen}
use sucopay.Finality.Worker.Stages.{stage-keeps, and_then-keeps}
use sucopay.Finality.Worker.Sweep
use sucopay.Finality.Worker.Sweep.{
  Swept, each_one, stage, and_then, past_deadline, refund_past_deadline, refund_expired,
  swept_refunds, swept,
}

-- A save leaves the status of a payment, or makes it that of the payment which was saved.
status-update :
    (a i : Text) (clock : ℕ) (b : Text) (p : Payment) (at : ℕ) (rows : List PaymentRow) (s : Stored)
    (rows' : List PaymentRow)
    → update_payment clock b p at rows ≡ some (s, rows')
    → (status_of (payment_row a i rows') ≡ status_of (payment_row a i rows))
      ⊎ ((b ≡ a) × (p.id ≡ i) × (status_of (payment_row a i rows') ≡ some p.status))
unfolding payment_row is_payment update_payment saved_columns
status-update a i clock b p at [] s rows' h = absurd (ground arith)
status-update a i clock b p at (y ∷ rows) s rows' h =
    elim (Option-cases (update_payment clock b p at rows)) [
      | inl n ↦ ground (
        arith,
        text_eq_iff y.account a,
        text_eq_iff y.account b,
        text_eq_iff y.stored.id i,
        text_eq_iff y.stored.id p.id,
      )
      | inr ((s', rest), n) ↦ elim (status-update a i clock b p at rows s' rest n) [
        | inl same ↦ ground (
          arith,
          text_eq_iff y.account a,
          text_eq_iff y.account b,
          text_eq_iff y.stored.id i,
          text_eq_iff y.stored.id p.id,
          n,
          same,
        )
        | inr moved ↦ ground (
          arith,
          text_eq_iff y.account a,
          text_eq_iff y.account b,
          text_eq_iff y.stored.id i,
          text_eq_iff y.stored.id p.id,
          n,
          moved,
        )
      ]
    ]

told-payments :
    (w : Setting) (account : Text) (p : Payment) (at : Revision) (d d' : Database)
    → told w account p at d ≡ ok d'
    → (d'.payments ≡ d.payments)
      ⊎ ((s : Stored) × (update_payment w.clock account p at.at d.payments ≡ some (s, d'.payments)))
unfolding told unless_stale save save_payment write_outbox
told-payments w account p at d d' h =
    elim (Option-cases (update_payment w.clock account p at.at d.payments)) [
      | inl n ↦ inl (ground (arith, n))
      | inr ((s, rows), n) ↦
          let either : (d'.payments ≡ d.payments) ⊎ (d'.payments ≡ rows) = ground (arith, n) in
          elim either [ inl same ↦ inl same | inr saved ↦ inr (s, rw saved n) ]
    ]

-- So does telling of a payment.
told-status :
    (a i : Text) (w : Setting) (account : Text) (p : Payment) (at : Revision) (d d' : Database)
    → told w account p at d ≡ ok d'
    → (status_at a i d' ≡ status_at a i d)
      ⊎ ((account ≡ a) × (p.id ≡ i) × (status_at a i d' ≡ some p.status))
unfolding status_at
told-status a i w account p at d d' h = elim (told-payments w account p at d d' h) [
  | inl same ↦ inl (rw same refl)
  | inr (s, n) ↦ status-update a i w.clock account p at.at d.payments s d'.payments n
]

-- A payment that is not expired, and that a recorded transfer may yet pay.
record IsAwaited (a i : Text) (d : Database) : Type 0 where
  payable : any (may_pay a i) d.observations ≡ true
  not_expired : status_at a i d ≢ some expired

-- A transaction that tells of another payment, or of a status that is not the expired one.
told-IsAwaited :
    (a i : Text) (w : Setting) (account : Text) (p : Payment) (at : Revision) (d d' : Database)
    → told w account p at d ≡ ok d'
    → (text_eq account a && text_eq p.id i ≡ false) ⊎ (p.status ≢ expired)
    → IsAwaited a i d
    → IsAwaited a i d'
told-IsAwaited a i w account p at d d' h other now =
    let seen = told-seen w account p at d d' h in
    record {
      payable = ground (arith, now.payable, seen);
      not_expired = elim (told-status a i w account p at d d' h) [
        | inl same ↦ ground (arith, same, now.not_expired)
        | inr (b, j, s) ↦ elim other [
          | inl differs ↦
              absurd (ground (arith, differs, text_eq_iff account a, text_eq_iff p.id i))
          | inr moved ↦ λ e. moved (ground (arith, s, e))
        ]
      ];
    }

returned-payments :
    (w : Setting) (account : Text) (r : Refund) (at : Revision) (d d' : Database)
    → returned w account r at d ≡ ok d'
    → d'.payments ≡ d.payments
unfolding returned unless_stale save_refund write_outbox
returned-payments w account r at d d' h = ground arith

returned-IsAwaited :
    (a i : Text) (w : Setting) (account : Text) (r : Refund) (at : Revision) (d d' : Database)
    → returned w account r at d ≡ ok d'
    → IsAwaited a i d
    → IsAwaited a i d'
unfolding status_at
returned-IsAwaited a i w account r at d d' h now =
    let seen = returned-seen w account r at d d' h in
    let same = returned-payments w account r at d d' h in
    record { payable = ground (arith, now.payable, seen); not_expired = rw same now.not_expired }

-- The payments that expire are those that no transfer may pay.
other :
    (a i : Text) (cursors : List Row) (network : Text) (d : Database)
    → any (may_pay a i) d.observations ≡ true
    → (row : PaymentRow) (one : Due) → due_of row ≡ ok one
    → is_unsettled cursors network d row ≡ true
    → text_eq one.account a && text_eq one.payment.id i ≡ false
unfolding due_of read_payment read_columns is_unsettled
other a i cursors network d paid row one h due =
    elim (Result-cases (restore (read_columns row.stored))) [
      | inr (e, n) ↦ absurd (ground (arith, n))
      | inl (p, n) ↦ elim (Bool-cases (text_eq one.account a && text_eq one.payment.id i)) [
        | inr differs ↦ differs
        | inl same ↦ absurd (
            ground (
              arith,
              n,
              same,
              restore-id (read_columns row.stored) p,
              text_eq_iff one.account a,
              text_eq_iff one.payment.id i,
            ))
      ]
    ]

moved : (now : ℕ) (p q : Payment) → await_finality now p ≡ ok q → q.status ≢ expired
unfolding await_finality move_to
moved now p q h = ground arith

expire-id : (p q : Payment) → expire p ≡ ok q → q.id ≡ p.id
unfolding expire move_to
expire-id p q h = ground arith

unsettled-others :
    (a i : Text) (cursors : List Row) (network : Text) (limit : ℕ) (d : Database) (due : List Due)
    → unsettled cursors network limit d ≡ ok due
    → any (may_pay a i) d.observations ≡ true
    → All (λ (one : Due). text_eq one.account a && text_eq one.payment.id i ≡ false) due
unfolding unsettled
unsettled-others a i cursors network limit d due h paid =
    map_ok-All due_of (λ row. is_unsettled cursors network d row ≡ true)
      (λ (one : Due). text_eq one.account a && text_eq one.payment.id i ≡ false)
      (other a i cursors network d paid)
      (take limit (sort_by due_before (keep (is_unsettled cursors network d) d.payments))) due h
      (take-All (λ row. is_unsettled cursors network d row ≡ true) limit
        (sort_by due_before (keep (is_unsettled cursors network d) d.payments))
        (sort_by-All (λ row. is_unsettled cursors network d row ≡ true) due_before
          (keep (is_unsettled cursors network d) d.payments)
          (keep-All (is_unsettled cursors network d) d.payments)))

past_deadline-IsAwaited :
    (a i : Text) (w : Setting) (one : Due) (d d' : Database)
    → past_deadline w one d ≡ ok d'
    → IsAwaited a i d
    → IsAwaited a i d'
unfolding past_deadline
past_deadline-IsAwaited a i w one d d' h now =
    elim (Result-cases (await_finality w.now one.payment)) [
      | inr (e, n) ↦ absurd (ground (arith, n))
      | inl (p, n) ↦
          told-IsAwaited a i w one.account p one.payment_at d d' (ground (arith, n))
            (inr (moved w.now one.payment p n)) now
    ]

expired-IsAwaited :
    (a i : Text) (w : Setting) (one : Due) (d d' : Database)
    → text_eq one.account a && text_eq one.payment.id i ≡ false
    → Sweep.expired w one d ≡ ok d'
    → IsAwaited a i d
    → IsAwaited a i d'
unfolding Sweep.expired
expired-IsAwaited a i w one d d' differs h now = elim (Result-cases (expire one.payment)) [
  | inr (e, n) ↦ absurd (ground (arith, n))
  | inl (p, n) ↦
      told-IsAwaited a i w one.account p one.payment_at d d' (ground (arith, n))
        (inl (ground (arith, differs, expire-id one.payment p n))) now
]

refund_past_deadline-IsAwaited :
    (a i : Text) (w : Setting) (one : RefundDue) (d d' : Database)
    → refund_past_deadline w one d ≡ ok d'
    → IsAwaited a i d
    → IsAwaited a i d'
unfolding refund_past_deadline
refund_past_deadline-IsAwaited a i w one d d' h now =
    elim (Result-cases (Refund.await_finality one.refund)) [
      | inr (e, n) ↦ absurd (ground (arith, n))
      | inl (r, n) ↦
          returned-IsAwaited a i w one.account r one.refund_at d d' (ground (arith, n)) now
    ]

refund_expired-IsAwaited :
    (a i : Text) (w : Setting) (one : RefundDue) (d d' : Database)
    → refund_expired w one d ≡ ok d'
    → IsAwaited a i d
    → IsAwaited a i d'
unfolding refund_expired
refund_expired-IsAwaited a i w one d d' h now = elim (Result-cases (Refund.expire one.refund)) [
  | inr (e, n) ↦ absurd (ground (arith, n))
  | inl (r, n) ↦ returned-IsAwaited a i w one.account r one.refund_at d d' (ground (arith, n)) now
]

All-unit {ℓ} : {A : Type ℓ} (xs : List A) → All (λ x. Unit {0}) xs
All-unit [] = tt
All-unit (x ∷ xs) = (tt, All-unit xs)

-- A round's sweep of the clock never makes a payment expired that a matched transfer stands for: if it
-- is not expired before the sweep, it is not expired after it.
pub swept-not_expired :
    (w : Setting) (cursors : List Row) (d : Database) (a i : Text)
    → any (may_pay a i) d.observations ≡ true
    → status_at a i d ≢ some expired
    → status_at a i (swept w cursors d).database ≢ some expired
unfolding swept swept_refunds
swept-not_expired w cursors d a i paid now =
    let P = IsAwaited a i in
    let first = λ (x : Database) (h : P x).
      stage-keeps P (λ (one : Due). Unit {0}) (past_deadline w)
        (overdue w.network w.now per_round x) x
        (λ one y z q r p. past_deadline-IsAwaited a i w one y z r p) (λ xs e. All-unit xs) h in
    let second = λ (x : Database) (h : P x).
      stage-keeps P (λ (one : Due). text_eq one.account a && text_eq one.payment.id i ≡ false)
        (Sweep.expired w) (unsettled cursors w.network per_round x) x
        (λ one y z q r p. expired-IsAwaited a i w one y z q r p)
        (λ xs e. unsettled-others a i cursors w.network per_round x xs e h.payable) h in
    let third = λ (x : Database) (h : P x).
      stage-keeps P (λ (one : RefundDue). Unit {0}) (refund_past_deadline w)
        (overdue_refunds w.network w.now per_round x) x
        (λ one y z q r p. refund_past_deadline-IsAwaited a i w one y z r p) (λ xs e. All-unit xs)
        h in
    let fourth = λ (x : Database) (h : P x).
      stage-keeps P (λ (one : RefundDue). Unit {0}) (refund_expired w)
        (unsettled_refunds cursors w.network per_round x) x
        (λ one y z q r p. refund_expired-IsAwaited a i w one y z r p) (λ xs e. All-unit xs) h in
    let payments =
      and_then-keeps P (stage (overdue w.network w.now per_round d) (past_deadline w) d)
        (λ x. stage (unsettled cursors w.network per_round x) (Sweep.expired w) x) second
        (first d (record { payable = paid; not_expired = now })) in
    (and_then-keeps P
      (and_then (stage (overdue w.network w.now per_round d) (past_deadline w) d)
        (λ x. stage (unsettled cursors w.network per_round x) (Sweep.expired w) x))
      (swept_refunds w cursors)
      (λ x h.
        and_then-keeps P
          (stage (overdue_refunds w.network w.now per_round x) (refund_past_deadline w) x)
          (λ y. stage (unsettled_refunds cursors w.network per_round y) (refund_expired w) y) fourth
          (third x h))
      payments).not_expired
