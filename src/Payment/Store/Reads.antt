-- ===== src/Payment/Store/Reads.antt =====
-- What a payment that was stored reads back as.
use sucopay.Prelude.{ℕ, ◌<◌, ◌≡◌, ◌≢◌, true, false, List, [], ◌∷◌, ◌++◌, some, ok, arith, any}
use sucopay.Text.{Text, text_eq_refl}
use sucopay.Payment.Status.{created}
use sucopay.Payment.Aggregate.{Payment, Request, build, to_microsecond}
use sucopay.Payment.Aggregate.Opening.{build-opened}
use sucopay.Payment.Lifecycle.Storage.{stored_of, restore-stored_of, build-IsSound}
use sucopay.Payment.Store.{Database, PaymentRow}
use sucopay.Payment.Store.Payments.{
  payment_row, is_payment, find, create, insert_payment, created_columns,
}

payment_row-new :
    (a i : Text) (rows : List PaymentRow) (row : PaymentRow)
    → any (is_payment a i) rows ≡ false
    → is_payment a i row ≡ true
    → payment_row a i (rows ++ row ∷ []) ≡ some row
unfolding payment_row
payment_row-new a i [] row h k = ground arith
payment_row-new a i (y ∷ rows) row h k = ground (arith, payment_row-new a i rows row)

pub create-inserts :
    (account : Text) (p : Payment) (d d' : Database)
    → create account p d ≡ ok d'
    → (any (is_payment account p.id) d.payments ≡ false)
      × (d'.payments
          ≡ d.payments
            ++ record { account = account; stored = created_columns p; version = 1 } ∷ [])
unfolding create insert_payment created_columns
create-inserts account p d d' h = ground arith

pub opened-columns :
    (id : Text) (r : Request) (now : ℕ) (p : Payment)
    → build id r created now now ≡ ok p
    → r.checkout.hash ≢ []
    → created_columns p ≡ stored_of p
unfolding created_columns
opened-columns id r now p h c = ground (arith, (build-opened id r created now now p h).1)

-- A payment that was opened for a request with a checkout page, with its deadline in a later
-- microsecond than the moment that it was opened at, reads back as it was opened once it is stored, at
-- its first version.
pub find-create :
    (account id : Text) (r : Request) (now : ℕ) (p : Payment) (d d' : Database)
    → build id r created now now ≡ ok p
    → to_microsecond now < to_microsecond r.expires_at
    → r.checkout.hash ≢ []
    → create account p d ≡ ok d'
    → find account p.id d' ≡ ok (p, record { id = p.id; at = 1 })
unfolding find is_payment
find-create account id r now p d d' made later c h =
    let (fresh, added) = create-inserts account p d d' h in
    let columns = opened-columns id r now p made c in
    let reads = restore-stored_of p (build-IsSound id r now p made later) in
    let row =
      payment_row-new account p.id d.payments
        (record { account = account; stored = created_columns p; version = 1 }) fresh in
    ground (arith, row, text_eq_refl account, text_eq_refl p.id)
