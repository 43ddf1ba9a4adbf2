-- ===== src/Payment/Store/Recording.antt =====
-- A round of the observer keeps one row for each transfer, and what the row was first recorded with.
use sucopay.Prelude.{
  map, ℕ, ◌≡◌, refl, inl, inr, Bool, true, false, ◌||◌, List, [], ◌∷◌, Option, any, ok, arith,
  Result-cases, Option-cases, >>=-eq-ok,
}
use sucopay.Text.{Text, text_eq_iff}
use sucopay.Payment.Units.{parse_money}
use sucopay.Payment.Aggregate.{Payment}
use sucopay.Payment.Lifecycle.{receive}
use sucopay.Payment.Attempt.{Attempt, confirm}
use sucopay.Payment.Evidence.{Transfer, screen}
use sucopay.Payment.Store.{Database, ObservationRow, write_outbox}
use sucopay.Payment.Store.Payments.{find, update_payment, save_payment}
use sucopay.Payment.Store.Attempts.{write_attempt}
use sucopay.Payment.Store.Observations.{
  seen_against_attempt, seen_against_refund, Seen, SeenRefund, Observation, is_observed, mark,
  rewritten, inserted, upsert, put_observation, record_one, block_height, span,
}
use sucopay.Payment.Store.Arrivals.{
  Lost, vanish_row, taken, taken_each, lost_rows, is_missing, vanish, record_each, receive_arrival,
  arrived, unless_refused, arrived_each, shared_attempt, confirmed_one, confirm_each, txs_of,
  record_round, swept_away,
}
use sucopay.Payment.Store.Vanishing.{are_keyed, taken-IsTakenBack}

pub any-upsert :
    (n k t : Text) (new : ObservationRow) (rows : List ObservationRow)
    → any (is_observed n k t) (upsert new rows)
      ≡ (is_observed n k t new || any (is_observed n k t) rows)
unfolding upsert rewritten is_observed
any-upsert n k t new [] = ground arith
any-upsert n k t new (row ∷ rows) = ground (
  arith,
  any-upsert n k t new rows,
  text_eq_iff row.network new.network,
  text_eq_iff row.key new.key,
  text_eq_iff row.tx new.tx,
)

upsert-are_keyed :
    (new : ObservationRow) (rows : List ObservationRow)
    → are_keyed rows ≡ true
    → are_keyed (upsert new rows) ≡ true
unfolding upsert rewritten are_keyed is_observed
upsert-are_keyed new [] h = ground arith
upsert-are_keyed new (row ∷ rows) h = ground (
  arith,
  upsert-are_keyed new rows,
  any-upsert row.network row.key row.tx new rows,
  text_eq_iff row.network new.network,
  text_eq_iff row.key new.key,
  text_eq_iff row.tx new.tx,
  text_eq_iff new.network row.network,
  text_eq_iff new.key row.key,
  text_eq_iff new.tx row.tx,
)

pub any-vanished :
    (test : ObservationRow → Bool) (now : ℕ) (n k t : Text) (rows : List ObservationRow)
    → any (is_observed n k t) (mark test (vanish_row now) rows) ≡ any (is_observed n k t) rows
unfolding mark vanish_row is_observed
any-vanished test now n k t [] = refl
any-vanished test now n k t (row ∷ rows) = ground (arith, any-vanished test now n k t rows)

vanished-are_keyed :
    (test : ObservationRow → Bool) (now : ℕ) (rows : List ObservationRow)
    → are_keyed (mark test (vanish_row now) rows) ≡ are_keyed rows
unfolding mark vanish_row are_keyed
vanished-are_keyed test now [] = refl
vanished-are_keyed test now (row ∷ rows) =
    ground (
      arith,
      vanished-are_keyed test now rows,
      any-vanished test now row.network row.key row.tx rows,
    )

-- What the calls of `Record` leave of the rows.
pub record_one-upsert :
    (numeric : Text → Option ℕ) (network : Text) (o : Observation) (final : Bool) (now : ℕ)
    (d d' : Database)
    → record_one numeric network o final now d ≡ ok d'
    → (new : ObservationRow) × (d'.observations ≡ upsert new d.observations)
      × (new.network ≡ network)
      × (new.key ≡ o.transfer.key)
      × (new.tx ≡ o.transfer.tx)
      × (new.reason ≡ o.reason)
unfolding record_one put_observation inserted
record_one-upsert numeric network o final now d d' h = elim (Result-cases (screen o.transfer)) [
  | inr (e, n) ↦ absurd (ground (arith, n))
  | inl (u, n) ↦ elim (Result-cases (block_height o.transfer)) [
    | inr (e, m) ↦ absurd (ground (arith, n, m))
    | inl (height, m) ↦ elim (Option-cases (numeric o.transfer.value)) [
      | inl v ↦ absurd (ground (arith, n, m, v))
      | inr (value, v) ↦ (
        inserted network o height value final now,
        ground (arith, n, m, v),
        refl,
        refl,
        refl,
        refl,
      )
    ]
  ]
]

record_one-are_keyed :
    (numeric : Text → Option ℕ) (network : Text) (o : Observation) (final : Bool) (now : ℕ)
    (d d' : Database)
    → record_one numeric network o final now d ≡ ok d'
    → are_keyed d.observations ≡ true
    → are_keyed d'.observations ≡ true
record_one-are_keyed numeric network o final now d d' h k =
    let (new, e, of_network, of_key, of_tx, of_reason) =
      record_one-upsert numeric network o final now d d' h in
    rw e (upsert-are_keyed new d.observations k)

record_each-are_keyed :
    (numeric : Text → Option ℕ) (network : Text) (os : List Observation) (final : Bool) (now : ℕ)
    (d d' : Database)
    → record_each numeric network os final now d ≡ ok d'
    → are_keyed d.observations ≡ true
    → are_keyed d'.observations ≡ true
unfolding record_each
record_each-are_keyed numeric network [] final now d d' h k = ground arith
record_each-are_keyed numeric network (o ∷ rest) final now d d' h k =
    let (m, first, next) =
      >>=-eq-ok (record_one numeric network o final now d)
        (record_each numeric network rest final now) h in
    record_each-are_keyed numeric network rest final now m d' next
      (record_one-are_keyed numeric network o final now d m first k)

pub taken_each-seen :
    (clock : ℕ) (lost : List Lost) (d d' : Database)
    → taken_each clock lost d ≡ ok d'
    → d'.observations ≡ d.observations
unfolding taken_each
taken_each-seen clock [] d d' h = ground arith
taken_each-seen clock (one ∷ rest) d d' h =
    let (m, first, next) = >>=-eq-ok (taken clock one d) (taken_each clock rest) h in
    let back = taken-IsTakenBack clock one d m first in
    ground (arith, taken_each-seen clock rest m d' next, back.seen)

vanish-are_keyed :
    (clock : ℕ) (network : Text) (first last : ℕ) (txs : List Text) (now : ℕ) (d d' : Database)
    → vanish clock network first last txs now d ≡ ok d'
    → are_keyed d.observations ≡ true
    → are_keyed d'.observations ≡ true
unfolding vanish
vanish-are_keyed clock network first last txs now d d' h k = elim (Result-cases (span first last)) [
  | inr (e, n) ↦ absurd (ground (arith, n))
  | inl ((low, high), n) ↦
      let test = is_missing network low high txs in
      let marked : Database = record d {
        observations = mark test (vanish_row now) d.observations;
      } in
      let left =
        taken_each-seen clock (lost_rows test d.observations) marked d' (ground (arith, n)) in
      ground (arith, left, vanished-are_keyed test now d.observations)
]

receive_arrival-seen :
    (clock : ℕ) (one : Seen) (d d' : Database)
    → receive_arrival clock one d ≡ ok d'
    → d'.observations ≡ d.observations
unfolding receive_arrival unless_refused save_payment
receive_arrival-seen clock one d d' h =
    elim (Result-cases (find one.hit.account one.hit.payment.id d)) [
      | inr (e, n) ↦ absurd (ground (arith, n))
      | inl ((p, at), n) ↦ elim (Result-cases (parse_money p.amount.asset one.transfer.value)) [
        | inr (e, m) ↦ ground (arith, n, m)
        | inl (m, q) ↦ elim (Result-cases (receive m p)) [
          | inr (e, r) ↦ ground (arith, n, q, r)
          | inl (p', r) ↦
              elim (Option-cases (update_payment clock one.hit.account p' at.at d.payments)) [
                | inl u ↦ ground (arith, n, q, r, u)
                | inr ((s, rows), u) ↦ ground (arith, n, q, r, u)
              ]
        ]
      ]
    ]

pub arrived_each-seen :
    (clock : ℕ) (seen : List Seen) (d d' : Database)
    → arrived_each clock seen d ≡ ok d'
    → d'.observations ≡ d.observations
unfolding arrived_each arrived
arrived_each-seen clock [] d d' h = ground arith
arrived_each-seen clock (one ∷ rest) d d' h = elim (Result-cases (arrived clock one d)) [
  | inr (e, n) ↦ absurd (ground (arith, n))
  | inl (m, n) ↦
      ground (arith, n, arrived_each-seen clock rest m d', receive_arrival-seen clock one d m)
]

confirmed_one-seen :
    (told : Payment → Option Transfer → Text) (one : Seen) (a : Attempt) (d d' : Database)
    → confirmed_one told one a d ≡ ok d'
    → d'.observations ≡ d.observations
unfolding confirmed_one write_attempt write_outbox
confirmed_one-seen told one a d d' h =
    elim (Result-cases (write_attempt one.hit.account a one.hit.attempt_at.at d)) [
      | inr (e, n) ↦ absurd (ground (arith, n))
      | inl (m, n) ↦ elim (Result-cases (find one.hit.account one.hit.payment.id m)) [
        | inr (e, f) ↦ absurd (ground (arith, n, f))
        | inl ((p, at), f) ↦ ground (arith, n, f)
      ]
    ]

pub confirm_each-seen :
    (told : Payment → Option Transfer → Text) (seen : List Seen) (confirmed : List Attempt)
    (d d' : Database)
    → confirm_each told seen confirmed d ≡ ok d'
    → d'.observations ≡ d.observations
unfolding confirm_each
confirm_each-seen told [] confirmed d d' h = ground arith
confirm_each-seen told (one ∷ rest) confirmed d d' h =
    elim (Result-cases (confirm one.transfer.authorizer (shared_attempt confirmed one.hit))) [
      | inr (e, n) ↦ ground (arith, n, confirm_each-seen told rest confirmed d d')
      | inl (a, n) ↦ elim (Result-cases (confirmed_one told one a d)) [
        | inr (e, m) ↦ ground (arith, n, m, confirm_each-seen told rest confirmed d d')
        | inl (m, k) ↦ ground (
          arith,
          n,
          k,
          confirm_each-seen told rest confirmed d d',
          confirm_each-seen told rest (a ∷ confirmed) m d',
          confirmed_one-seen told one a d m,
        )
      ]
    ]

swept_away-are_keyed :
    (clock : ℕ) (network : Text) (first last : ℕ) (final : Bool) (seen : List Seen)
    (sent : List SeenRefund) (now : ℕ) (d d' : Database)
    → swept_away clock network first last final seen sent now d ≡ ok d'
    → are_keyed d.observations ≡ true
    → are_keyed d'.observations ≡ true
unfolding swept_away
swept_away-are_keyed clock network first last true seen sent now d d' h k =
    vanish-are_keyed clock network first last (txs_of seen sent) now d d' h k
swept_away-are_keyed clock network first last false seen sent now d d' h k = ground arith

-- A round of the observer, read to the end or ahead of it, keeps one row for each network, key and
-- transaction.
pub record_round-are_keyed :
    (numeric : Text → Option ℕ) (told : Payment → Option Transfer → Text) (clock : ℕ)
    (network : Text) (first last : ℕ) (final : Bool) (seen : List Seen) (sent : List SeenRefund)
    (now : ℕ) (d d' : Database)
    → record_round numeric told clock network first last final seen sent now d ≡ ok d'
    → are_keyed d.observations ≡ true
    → are_keyed d'.observations ≡ true
unfolding record_round
record_round-are_keyed numeric told clock network first last final seen sent now d d' h k =
    elim (Result-cases (record_each numeric network (map seen_against_attempt seen) final now d)) [
      | inr (e, n) ↦ absurd (ground (arith, n))
      | inl (d₁, n₁) ↦
          elim (Result-cases
            (record_each numeric network (map seen_against_refund sent) final now d₁)) [
              | inr (e, n) ↦ absurd (ground (arith, n, n₁))
              | inl (d₂, n₂) ↦
                  elim (Result-cases (swept_away clock network first last final seen sent now d₂)) [
                    | inr (e, n) ↦ absurd (ground (arith, n, n₁, n₂))
                    | inl (d₃, n₃) ↦ elim (Result-cases (arrived_each clock seen d₃)) [
                      | inr (e, n) ↦ absurd (ground (arith, n, n₁, n₂, n₃))
                      | inl (d₄, n₄) ↦
                          let k₁ =
                            record_each-are_keyed numeric network (map seen_against_attempt seen)
                              final now d d₁ n₁ k in
                          let k₂ =
                            record_each-are_keyed numeric network (map seen_against_refund sent)
                              final now d₁ d₂ n₂ k₁ in
                          let k₃ =
                            swept_away-are_keyed clock network first last final seen sent now d₂ d₃
                              n₃ k₂ in
                          let seen₄ = arrived_each-seen clock seen d₃ d₄ n₄ in
                          let seen₅ =
                            confirm_each-seen told seen [] d₄ d' (ground (arith, n₁, n₂, n₃, n₄)) in
                          ground (arith, seen₄, seen₅, k₃)
                    ]
                  ]
            ]
    ]
