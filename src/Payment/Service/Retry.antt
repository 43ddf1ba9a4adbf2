-- ===== src/Payment/Service/Retry.antt =====
-- A request that arrives again under its idempotency key.
use sucopay.Prelude.{
  ℕ, ◌<◌, ◌≡◌, ◌≢◌, refl, Bool, true, false, ◌&&◌, List, [], ◌∷◌, ◌++◌, ok, err, arith, any,
  is_empty, sym, ◌∙◌, ap,
}
use mathlib.Core.Path.{subst}
use sucopay.Text.{Text, text_eq, text_eq_refl}
use sucopay.Payment.Status.{created, valid, status_eq}
use sucopay.Payment.Aggregate.{Payment, Request, Idempotency, build, to_microsecond}
use sucopay.Payment.Aggregate.Opening.{build-opened}
use sucopay.Payment.Store.{Database, Revision, PaymentRow, idempotency_key_used}
use sucopay.Payment.Store.Payments.{
  find_by_key, create, created_columns, payment_checks, is_payment, same_checkout, same_idempotency,
}
use sucopay.Payment.Store.Reads.{create-inserts}
use sucopay.Payment.Service.{
  open_as, opened, with_deadline, too_far, stored_or_refused, created_or_opened,
}
use sucopay.Payment.Service.Opening.{open_as-created, find_by_key-create, create-key_used}

any_last :
    (f : PaymentRow → Bool) (rows : List PaymentRow) (row : PaymentRow)
    → f row ≡ true
    → any f (rows ++ row ∷ []) ≡ true
any_last f [] row h = ground arith
any_last f (x ∷ rows) row h = ground (arith, any_last f rows row)

new_columns-checked :
    (id : Text) (r : Request) (now : ℕ) (p : Payment)
    → build id r created now now ≡ ok p
    → to_microsecond now < to_microsecond r.expires_at
    → payment_checks (created_columns p) ≡ ok tt
unfolding payment_checks created_columns valid status_eq
new_columns-checked id r now p h later =
    let is = (build-opened id r created now now p h).1 in ground arith

opened-found :
    (account : Text) (i : Idempotency) (d : Database) (p : Payment) (at : Revision)
    → find_by_key account i.key d ≡ ok (p, at)
    → p.idempotency ≡ i
    → opened account i d ≡ ok (p, true)
unfolding opened
opened-found account i d p at h e = ground (arith, text_eq_refl i.body_hash)

open_as-used :
    (account id : Text) (r : Request) (now : ℕ) (p q : Payment) (d : Database)
    → build id (with_deadline r now) created now now ≡ ok q
    → too_far (with_deadline r now) now ≡ []
    → create account q d ≡ err idempotency_key_used
    → opened account r.idempotency d ≡ ok (p, true)
    → open_as account id r now d ≡ ok (p, true, d)
unfolding open_as stored_or_refused created_or_opened with_deadline
open_as-used account id r now p q d built near used found = rw (built, near, used, found) refl

has_key :
    (account : Text) (p q : Payment) (d d' : Database)
    → d'.payments
      ≡ d.payments ++ record { account = account; stored = created_columns p; version = 1 } ∷ []
    → p.idempotency ≡ q.idempotency
    → is_empty p.idempotency.key ≡ false
    → any
        (λ x. text_eq x.account account && same_idempotency x.stored.idempotency q.idempotency)
        d'.payments
      ≡ true
unfolding same_idempotency created_columns
has_key account p q d d' added same keyed = rw added (
    any_last (λ x. text_eq x.account account && same_idempotency x.stored.idempotency q.idempotency)
      d.payments (record { account = account; stored = created_columns p; version = 1 })
      (ground (arith, text_eq_refl account, text_eq_refl p.idempotency.key)))

-- A request that opened a payment under an idempotency key opens no second one: when it arrives again
-- with the same key and body, under another identifier and at another moment at which it can be
-- opened, it is answered with the payment that the first one opened, and the database is left as it
-- was. Both have a page, a new page's hash is no other's, the new identifier is no other's, and each
-- deadline is in a later microsecond than its moment.
pub open_twice :
    (account id again : Text) (r s : Request) (now later : ℕ) (p q : Payment) (d d' : Database)
    → open_as account id r now d ≡ ok (p, false, d')
    → to_microsecond now < to_microsecond (with_deadline r now).expires_at
    → r.checkout.hash ≢ []
    → is_empty r.idempotency.key ≡ false
    → is_empty r.idempotency.body_hash ≡ false
    → s.idempotency ≡ r.idempotency
    → build again (with_deadline s later) created later later ≡ ok q
    → too_far (with_deadline s later) later ≡ []
    → to_microsecond later < to_microsecond (with_deadline s later).expires_at
    → any (is_payment account again) d'.payments ≡ false
    → any (λ x. same_checkout x.stored.checkout (created_columns q).checkout) d'.payments ≡ false
    → open_as account again s later d' ≡ ok (p, true, d')
unfolding with_deadline
open_twice account id again r s now later p q d d' h ahead page keyed hashed same built near ahead'
      fresh fresh_page =
    let (made, close, stored) = open_as-created account id r now d d' p h in
    let first =
      ap (λ (x : Payment). x.idempotency)
        (build-opened id (with_deadline r now) created now now p made).1 in
    let is = (build-opened again (with_deadline s later) created later later q built).1 in
    let second = ap (λ (x : Payment). x.idempotency) is ∙ same in
    let key = ap (λ (i : Idempotency). is_empty i.key) first ∙ keyed in
    let found =
      find_by_key-create account id (with_deadline r now) now p d d' made ahead page stored key in
    let used =
      create-key_used account q d'
        (new_columns-checked again (with_deadline s later) later q built ahead')
        (rw (ap (λ (x : Payment). x.id) is) fresh) fresh_page
        (has_key account p q d d' (create-inserts account p d d' stored).1 (first ∙ sym second) key)
        (ap (λ (i : Idempotency). is_empty i.key) second ∙ keyed)
        (ap (λ (i : Idempotency). is_empty i.body_hash) second ∙ hashed) in
    open_as-used account again s later p q d' built near used (
      opened-found account s.idempotency d' p (record { id = p.id; at = 1 })
        (subst
          (λ (i : Idempotency). find_by_key account i.key d' ≡ ok (p, record { id = p.id; at = 1 }))
          (first ∙ sym same) found)
        (first ∙ sym same))
