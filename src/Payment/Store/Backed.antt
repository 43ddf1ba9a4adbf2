-- ===== src/Payment/Store/Backed.antt =====
-- What stands for the money that a payment says has arrived: a transfer that is still recorded.
use sucopay.Prelude.{
  ℕ, ◌+◌, ◌≡◌, inl, inr, Bool, true, false, not, ◌&&◌, ◌||◌, List, [], ◌∷◌, Option, none, some, any,
  ok, arith, Result-cases, Option-cases, Bool-cases,
}
use sucopay.Text.{Text, text_eq}
use sucopay.Payment.Money
use sucopay.Payment.Money.{zero_money}
use sucopay.Payment.Status.{Status, awaiting_payment, awaiting_finality, status_eq}
use sucopay.Payment.Aggregate.{Payment, Stored, restore}
use sucopay.Payment.Lifecycle.{can_receive, unreceive}
use sucopay.Payment.Attempt.{unconfirm}
use sucopay.Payment.Store.{Database, PaymentRow, Revision}
use sucopay.Payment.Store.Payments.{
  is_payment, payment_row, find, update_payment, saved_columns, save_payment,
}
use sucopay.Payment.Store.Attempts.{find_attempt, write_attempt}
use sucopay.Payment.Store.Rows.{
  payment_row-update, payment_row-key, restore-status, restore-id, restore-received,
}
use sucopay.Payment.Store.Arrivals.{
  Lost, is_for_payment, unless_refused, take_attempt_back, take_arrival_back,
}

-- Open for payment, and told of an arrival.
unfoldable pub is_told : Stored → Bool
unfolding status_eq Money.is_set
is_told s =
    (status_eq s.status awaiting_payment || status_eq s.status awaiting_finality)
    && Money.is_set s.received

-- The payment of a key, if it says that money has arrived, has a transfer that stands.
unfoldable pub is_backed : Text → Text → Database → Bool
unfolding payment_row is_told is_for_payment
is_backed a i d = elim (payment_row a i d.payments) [
  | none ↦ true
  | some row ↦ not (is_told row.stored) || any (is_for_payment a i) d.observations
]

-- The row that an update met is the one that the key finds, when the version is its own.
pub payment_row-saved :
    (clock : ℕ) (a : Text) (p : Payment) (rows : List PaymentRow) (row : PaymentRow) (s : Stored)
    (rows' : List PaymentRow)
    → payment_row a p.id rows ≡ some row
    → update_payment clock a p row.version rows ≡ some (s, rows')
    → payment_row a p.id rows'
      ≡ some (record row { stored = saved_columns clock p row.stored; version = row.version + 1 })
unfolding payment_row update_payment is_payment saved_columns
payment_row-saved clock a p [] row s rows' h k = absurd (ground arith)
payment_row-saved clock a p (y ∷ rows) row s rows' h k =
    elim (Option-cases (update_payment clock a p row.version rows)) [
      | inl n ↦ ground arith
      | inr ((s', rest), n) ↦ ground (arith, payment_row-saved clock a p rows row s' rest)
    ]

pub take_attempt_back-keeps :
    (one : Lost) (d d' : Database)
    → take_attempt_back one d ≡ ok d'
    → (d'.payments ≡ d.payments)
      × (d'.observations ≡ d.observations)
      × (d'.outbox ≡ d.outbox)
      × (d'.refunds ≡ d.refunds)
unfolding take_attempt_back unless_refused write_attempt
take_attempt_back-keeps one d d' h =
    elim (Result-cases (find_attempt one.account one.payment one.attempt d)) [
      | inr (e, n) ↦ ground (arith, n)
      | inl ((a, at), n) ↦ elim (Result-cases (unconfirm a)) [
        | inr (e, m) ↦ ground (arith, n, m)
        | inl (b, m) ↦ ground (arith, n, m)
      ]
    ]

-- What is read of a payment, and what it says of its row.
pub find-row :
    (a i : Text) (d : Database) (p : Payment) (at : Revision)
    → find a i d ≡ ok (p, at)
    → (row : PaymentRow) × (payment_row a i d.payments ≡ some row)
      × (restore row.stored ≡ ok p)
      × (at.at ≡ row.version)
unfolding find
find-row a i d p at h = elim (Option-cases (payment_row a i d.payments)) [
  | inl n ↦ absurd (ground (arith, n))
  | inr (row, n) ↦ elim (Result-cases (restore row.stored)) [
    | inr (e, m) ↦ absurd (ground (arith, n, m))
    | inl (q, m) ↦ (row, n, ground (arith, n, m), ground (arith, n, m))
  ]
]

-- The status of the payment of a key.
abbrev pub status_of : Option PaymentRow → Option Status
status_of none = none
status_of (some row) = some row.stored.status

unfoldable pub status_at : Text → Text → Database → Option Status
status_at a i d = status_of (payment_row a i d.payments)

-- Taking an arrival back, by what it came to.
pub record IsTakenBack (clock : ℕ) (a i : Text) (d d' : Database) : Type 0 where
  pub backed : is_backed a i d' ≡ true
  pub others :
      (b j : Text)
      → text_eq a b && text_eq i j ≡ false
      → payment_row b j d'.payments ≡ payment_row b j d.payments
  pub seen : d'.observations ≡ d.observations
  pub told : d'.outbox ≡ d.outbox
  pub refunds : d'.refunds ≡ d.refunds
  pub status : status_at a i d' ≡ status_at a i d

unreceived :
    (clock : ℕ) (a i : Text) (p q : Payment) (at : Revision) (row : PaymentRow) (d d' : Database)
    → payment_row a i d.payments ≡ some row
    → restore row.stored ≡ ok p
    → at.at ≡ row.version
    → unreceive p ≡ ok q
    → save_payment clock a q at d ≡ ok d'
    → IsTakenBack clock a i d d'
unfolding save_payment status_at is_backed is_told saved_columns unreceive Money.is_set
unreceived clock a i p q at row d d' n r v u s =
    elim (Option-cases (update_payment clock a q at.at d.payments)) [
      | inl m ↦ absurd (ground arith)
      | inr ((st, rows), m) ↦
          let id : q.id ≡ i =
            ground (arith, restore-id row.stored p r, payment_row-key a i d.payments row n) in
          let kept : d'.payments ≡ rows = ground (arith, m, s) in
          let saved =
            payment_row-saved clock a q d.payments row st rows (ground (arith, id, n))
              (ground (arith, m, v)) in
          record {
            backed = ground (arith, kept, saved, id);
            others = λ b j k. ground (
              arith,
              kept,
              payment_row-update b j clock a q at.at d.payments st rows m (ground (arith, id, k)),
            );
            seen = ground (arith, m, s);
            told = ground (arith, m, s);
            refunds = ground (arith, m, s);
            status = ground (arith, kept, saved, id, restore-status row.stored p, n);
          }
    ]

pub take_arrival_back-IsTakenBack :
    (clock : ℕ) (one : Lost) (d d' : Database)
    → take_arrival_back clock one d ≡ ok d'
    → IsTakenBack clock one.account one.payment d d'
unfolding take_arrival_back status_at unless_refused is_backed is_told unreceive can_receive
    Money.is_set
take_arrival_back-IsTakenBack clock one d d' h =
    elim (Bool-cases (any (is_for_payment one.account one.payment) d.observations)) [
      | inl standing ↦ record {
        backed = elim (Option-cases (payment_row one.account one.payment d.payments)) [
          | inl n ↦ ground (arith, n, standing)
          | inr (row, n) ↦ ground (arith, n, standing)
        ];
        others = λ b j k. ground (arith, standing);
        seen = ground (arith, standing);
        told = ground (arith, standing);
        refunds = ground (arith, standing);
        status = ground (arith, standing);
      }
      | inr nothing ↦ elim (Result-cases (find one.account one.payment d)) [
        | inr (e, n) ↦ absurd (ground (arith, n, nothing))
        | inl ((p, at), n) ↦
            let (row, found, read, version) = find-row one.account one.payment d p at n in
            elim (Result-cases (unreceive p)) [
              | inl (q, m) ↦
                  unreceived clock one.account one.payment p q at row d d' found read version m
                    (ground (arith, n, m, nothing))
              | inr (e, m) ↦
                  let same : d' ≡ d = ground (arith, n, m, nothing) in
                  record {
                    backed = ground (
                      arith,
                      same,
                      found,
                      m,
                      restore-status row.stored p,
                      restore-received row.stored p,
                    );
                    others = λ b j k. ground (arith, same);
                    seen = ground (arith, same);
                    told = ground (arith, same);
                    refunds = ground (arith, same);
                    status = ground (arith, same);
                  }
            ]
      ]
    ]
