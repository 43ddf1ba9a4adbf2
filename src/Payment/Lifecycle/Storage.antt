-- ===== src/Payment/Lifecycle/Storage.antt =====
-- A payment, the row that it is written to, and what `New` and `Restore` make.
use sucopay.Prelude.{ℕ, ◌<◌, ◌≡◌, refl, sym, ap, Result-cases, inl, inr, Result, ok, arith, IsOk}
use mathlib.Core.Path.{subst}
use sucopay.Text.{Text}
use sucopay.Payment.Status.{created, valid}
use sucopay.Payment.Problem.{Problems}
use sucopay.Payment.Aggregate.{Payment, Request, Stored, to_microsecond, build, restore, request_of}
use sucopay.Payment.Aggregate.Opening.{IsOpenable, build_opens, build-opened, build-IsOpenable}
use sucopay.Payment.Lifecycle.Soundness.{IsSound}

-- A row of the payment: every field as it is.
abbrev pub stored_of : Payment → Stored
stored_of p = record {
  id = p.id;
  amount = p.amount;
  received = p.received;
  destination = p.destination;
  metadata = p.metadata;
  status = p.status;
  created_at = p.created_at;
  expires_at = p.expires_at;
  return_url = p.return_url;
  checkout = p.checkout;
  idempotency = p.idempotency;
  closed_at = p.closed_at;
}

to_microsecond_idem : (t : ℕ) → to_microsecond (to_microsecond t) ≡ to_microsecond t
unfolding to_microsecond
to_microsecond_idem t = omega arith

-- A payment that was opened for a request is sound, if the deadline is in a later microsecond than
-- the moment that it was opened at.
pub build-IsSound :
    (id : Text) (r : Request) (now : ℕ) (p : Payment)
    → build id r created now now ≡ ok p
    → to_microsecond now < to_microsecond r.expires_at
    → IsSound p
unfolding valid
build-IsSound id r now p h later =
    let good = (build-IsOpenable id r created now now).0 (p, h) in
    subst IsSound (sym (build-opened id r created now now p h).1) (record {
      id_shaped = good.0.id_shaped;
      amount_given = good.0.amount_given;
      amount_positive = good.0.amount_positive;
      destination_shaped = good.0.destination_shaped;
      metadata_kept = good.0.metadata_kept;
      status_valid = refl;
      opened_before = later;
      created_whole = to_microsecond_idem now;
      expires_whole = to_microsecond_idem r.expires_at;
      received_fits = inl refl;
      created_unpaid = λ e. refl;
      succeeded_paid = λ e. cc;
    })

openable : (p : Payment) → IsSound p → IsOpenable p.id (request_of (stored_of p))
openable p s = record {
  id_shaped = s.id_shaped;
  amount_given = s.amount_given;
  amount_positive = s.amount_positive;
  destination_shaped = s.destination_shaped;
  metadata_kept = s.metadata_kept;
}

-- A sound payment that is written to its row and read back is the same payment, in every field.
pub restore-stored_of : (p : Payment) → IsSound p → restore (stored_of p) ≡ ok p
unfolding restore
restore-stored_of p s =
    let e =
      build_opens p.id (request_of (stored_of p)) p.status p.created_at p.created_at (openable p s)
        s.opened_before in
    ground (arith, e)

abbrev built_of : Stored → Result Problems Payment
built_of s = build s.id (request_of s) s.status s.created_at s.created_at

pub restore-built_of : (s : Stored) (p : Payment) → restore s ≡ ok p → IsOk (built_of s)
unfolding restore
restore-built_of s p h = elim (Result-cases (built_of s)) [
  | inl made ↦ made
  | inr (e, refused) ↦ absurd (ground (arith, refused))
]

-- A payment whose deadline falls in the microsecond in which it was opened is made all right, and
-- `Restore` refuses its row.
pub restore-same_microsecond :
    (id : Text) (r : Request) (now : ℕ) (p : Payment)
    → build id r created now now ≡ ok p
    → to_microsecond r.expires_at ≡ to_microsecond now
    → ¬ IsOk (restore (stored_of p))
restore-same_microsecond id r now p h same o =
    let made = restore-built_of (stored_of p) o.0 o.1 in
    let q = (build-opened id r created now now p h).1 in
    let later =
      ((build-IsOpenable p.id (request_of (stored_of p)) p.status p.created_at p.created_at).0
        made).1 in
    omega (arith, ap (λ (x : Payment). x.created_at) q, ap (λ (x : Payment). x.expires_at) q)

-- A row that `Restore` accepts, of moments that are whole microseconds as its columns hold them,
-- makes a sound payment.
pub restore-IsSound :
    (s : Stored) (p : Payment)
    → restore s ≡ ok p
    → to_microsecond s.created_at ≡ s.created_at
    → to_microsecond s.expires_at ≡ s.expires_at
    → IsSound p
unfolding restore
restore-IsSound s p h c e =
    let (q, made) = restore-built_of s p h in
    let good =
      (build-IsOpenable s.id (request_of s) s.status s.created_at s.created_at).0 (q, made) in
    let is = (build-opened s.id (request_of s) s.status s.created_at s.created_at q made).1 in
    ground (
      arith, made, is, good.1, good.0.id_shaped, good.0.amount_given, good.0.amount_positive,
      good.0.destination_shaped, good.0.metadata_kept,
    )
