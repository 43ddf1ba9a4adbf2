-- ===== src/Payment/Service/Opening.antt =====
-- Opening a payment, once and again.
use sucopay.Prelude.{
  ℕ, ◌+◌, ◌≤◌, ◌<◌, ◌≡◌, ◌≢◌, refl, Bool, true, false, ◌&&◌, List, [], ◌∷◌, ◌++◌, some, Result, ok,
  err, arith, any, is_empty, sym, ap, Result-cases, inl, inr,
}
use sucopay.Text.{Text, text_eq, text_eq_iff}
use sucopay.Payment.Status.{created}
use sucopay.Payment.Problem.{Problems}
use sucopay.Payment.Aggregate.{Payment, Request, Idempotency, build, to_microsecond}
use sucopay.Payment.Aggregate.Opening.{build-opened, build-IsOpenable}
use sucopay.Payment.Store.{Database, PaymentRow, StoreError, idempotency_key_used}
use sucopay.Payment.Store.Payments.{
  id_by_key, find_by_key, create, insert_payment, created_columns, same_idempotency, same_checkout,
  payment_checks, is_payment,
}
use sucopay.Payment.Store.Reads.{find-create, create-inserts}
use sucopay.Payment.Service.{
  open_as, opened, with_deadline, max_expiry, too_far, stored_or_refused, created_or_opened,
}

opened-again :
    (account : Text) (i : Idempotency) (d : Database) (p : Payment) (again : Bool)
    → opened account i d ≡ ok (p, again)
    → again ≡ true
unfolding opened
opened-again account i d p again h = ground arith

created_or_opened-new :
    (account : Text) (p q : Payment) (i : Idempotency) (d d' : Database)
    (r : Result StoreError Database)
    → created_or_opened account p i d r ≡ ok (q, false, d')
    → (p ≡ q) × (r ≡ ok d')
unfolding created_or_opened
created_or_opened-new account p q i d d' (ok e) h = ground arith
created_or_opened-new account p q i d d' (err idempotency_key_used) h =
    elim (Result-cases (opened account i d)) [
      | inl ((found, again), n) ↦ absurd (ground (arith, opened-again account i d found again))
      | inr (e, n) ↦ absurd (ground arith)
    ]
created_or_opened-new account p q i d d' (err e) h = absurd (ground arith)

stored_or_refused-new :
    (account : Text) (r : Request) (d d' : Database) (found : Problems)
    (built : Result Problems Payment) (p : Payment)
    → stored_or_refused account r d found built ≡ ok (p, false, d')
    → (built ≡ ok p) × (found ≡ []) × (create account p d ≡ ok d')
unfolding stored_or_refused
stored_or_refused-new account r d d' found (err e) p h = absurd (ground arith)
stored_or_refused-new account r d d' (x ∷ found) (ok q) p h = absurd (ground arith)
stored_or_refused-new account r d d' [] (ok q) p h =
    let (same, stored) =
      created_or_opened-new account q p r.idempotency d d' (create account q d) h in
    (ap ok same, refl, rw (sym same) stored)

pub open_as-created :
    (account id : Text) (r : Request) (now : ℕ) (d d' : Database) (p : Payment)
    → open_as account id r now d ≡ ok (p, false, d')
    → (build id (with_deadline r now) created now now ≡ ok p)
      × (too_far (with_deadline r now) now ≡ [])
      × (create account p d ≡ ok d')
unfolding open_as
open_as-created account id r now d d' p h =
    stored_or_refused-new account (with_deadline r now) d d' (too_far (with_deadline r now) now)
      (build id (with_deadline r now) created now now) p h

-- A payment that `OpenAs` opened is created, was asked for now, and its deadline is the one that was
-- asked for, or a quarter of an hour from now if none was, to the microsecond; and it was after now
-- and at most thirty days after it.
pub open_as_terms :
    (account id : Text) (r : Request) (now : ℕ) (d d' : Database) (p : Payment)
    → open_as account id r now d ≡ ok (p, false, d')
    → (p.status ≡ created)
      × (p.created_at ≡ to_microsecond now)
      × (p.expires_at ≡ to_microsecond (with_deadline r now).expires_at)
      × (now < (with_deadline r now).expires_at)
      × ((with_deadline r now).expires_at ≤ now + max_expiry)
unfolding too_far
open_as_terms account id r now d d' p h =
    let (made, near, stored) = open_as-created account id r now d d' p h in
    let is = (build-opened id (with_deadline r now) created now now p made).1 in
    let later = ((build-IsOpenable id (with_deadline r now) created now now).0 (p, made)).1 in
    (cc, cc, cc, later, ground arith)

id_by_key-new :
    (a key : Text) (rows : List PaymentRow) (row : PaymentRow)
    → any
        (λ x. text_eq x.account a && same_idempotency x.stored.idempotency row.stored.idempotency)
        rows
      ≡ false
    → row.account ≡ a
    → row.stored.idempotency.key ≡ key
    → is_empty key ≡ false
    → id_by_key a key (rows ++ row ∷ []) ≡ some row.stored.id
unfolding id_by_key same_idempotency
id_by_key-new a key [] row h o k n =
    ground (arith, text_eq_iff row.account a, text_eq_iff row.stored.idempotency.key key)
id_by_key-new a key (y ∷ rows) row h o k n = ground (
  arith,
  id_by_key-new a key rows row,
  text_eq_iff y.stored.idempotency.key key,
  text_eq_iff y.account a,
)

create-no_key :
    (account : Text) (p : Payment) (d d' : Database)
    → create account p d ≡ ok d'
    → any
        (λ x. text_eq x.account account && same_idempotency x.stored.idempotency p.idempotency)
        d.payments
      ≡ false
unfolding create insert_payment created_columns
create-no_key account p d d' h = ground arith

module _ (account id : Text) (r : Request) (now : ℕ) (p : Payment) (d d' : Database)
    (made : build id r created now now ≡ ok p)
    (later : to_microsecond now < to_microsecond r.expires_at) (page : r.checkout.hash ≢ [])
    (h : create account p d ≡ ok d') (keyed : is_empty p.idempotency.key ≡ false) where
  pub find_by_key-create :
      find_by_key account p.idempotency.key d' ≡ ok (p, record { id = p.id; at = 1 })
  unfolding find_by_key created_columns
  find_by_key-create =
      let (fresh, added) = create-inserts account p d d' h in
      let by_key =
        id_by_key-new account p.idempotency.key d.payments
          (record { account = account; stored = created_columns p; version = 1 })
          (create-no_key account p d d' h) refl refl keyed in
      let found = find-create account id r now p d d' made later page h in ground arith

pub create-key_used :
    (account : Text) (p : Payment) (d : Database)
    → payment_checks (created_columns p) ≡ ok tt
    → any (is_payment account p.id) d.payments ≡ false
    → any (λ x. same_checkout x.stored.checkout (created_columns p).checkout) d.payments ≡ false
    → any
        (λ x. text_eq x.account account && same_idempotency x.stored.idempotency p.idempotency)
        d.payments
      ≡ true
    → is_empty p.idempotency.key ≡ false
    → is_empty p.idempotency.body_hash ≡ false
    → create account p d ≡ err idempotency_key_used
unfolding create insert_payment created_columns
create-key_used account p d c i k u n b = ground arith
