-- ===== src/Payment/Aggregate/Opening.antt =====
-- What `build` accepts, and what it makes.
use sucopay.Prelude.{ℕ, ◌<◌, ◌≡◌, ◌↔◌, true, [], ok, arith, IsOk, append-eq-nil}
use sucopay.Text.{Text}
use sucopay.Payment.Money
use sucopay.Payment.Money.{Money, Sign, zero_money, cmp, less}
use sucopay.Payment.Metadata.{metadata_problems}
use sucopay.Payment.Status.{Status}
use sucopay.Payment.Aggregate.{
  Payment, Request, parse_id, parse_address, to_microsecond, build, request_problems,
  problems_of_id, problems_of_address, amount_problems, deadline_problems,
}

-- What a request has to meet, deadline apart.
pub record IsOpenable (id : Text) (r : Request) : Type 0 where
  pub id_shaped : parse_id id ≡ ok id
  pub amount_given : Money.is_set r.amount ≡ true
  pub amount_positive : 0 < Money.amount_of r.amount
  pub destination_shaped : parse_address r.destination ≡ ok r.destination
  pub metadata_kept : metadata_problems r.metadata ≡ []

id_problems-eq-nil : (id : Text) → problems_of_id (parse_id id) ≡ [] → parse_id id ≡ ok id
unfolding problems_of_id parse_id
id_problems-eq-nil id h = ground arith

pub address_problems-eq-nil :
    (a : Text) → problems_of_address (parse_address a) ≡ [] → parse_address a ≡ ok a
unfolding problems_of_address parse_address
address_problems-eq-nil a h = ground arith

amount_problems-eq-nil :
    (m : Money) → amount_problems m ≡ [] → (Money.is_set m ≡ true) × (0 < Money.amount_of m)
unfolding amount_problems
amount_problems-eq-nil m h = ground arith

deadline_problems-eq-nil : (e d : ℕ) → deadline_problems e d ≡ [] → d < e
unfolding deadline_problems
deadline_problems-eq-nil e d h = ground arith

request_problems-eq-nil :
    (id : Text) (r : Request) (d : ℕ)
    → request_problems id r d ≡ []
    → IsOpenable id r × (d < r.expires_at)
unfolding request_problems
request_problems-eq-nil id r d h =
    let of_id = append-eq-nil _ _ h in
    let of_amount = append-eq-nil _ _ of_id.1 in
    let of_address = append-eq-nil _ _ of_amount.1 in
    let of_deadline = append-eq-nil _ _ of_address.1 in
    (
      record {
        id_shaped = id_problems-eq-nil id of_id.0;
        amount_given = (amount_problems-eq-nil r.amount of_amount.0).0;
        amount_positive = (amount_problems-eq-nil r.amount of_amount.0).1;
        destination_shaped = address_problems-eq-nil r.destination of_address.0;
        metadata_kept = of_deadline.1;
      },
      deadline_problems-eq-nil r.expires_at d of_deadline.0,
    )

request_problems_none :
    (id : Text) (r : Request) (d : ℕ)
    → IsOpenable id r
    → d < r.expires_at
    → request_problems id r d ≡ []
unfolding request_problems problems_of_id problems_of_address amount_problems deadline_problems
request_problems_none id r d o h = ground arith

-- The payment that a good request makes.
abbrev pub opened : Text → Request → Status → ℕ → Payment
opened id r status created_at = record {
  id = id;
  amount = r.amount;
  received = zero_money;
  destination = r.destination;
  status = status;
  metadata = r.metadata;
  created_at = to_microsecond created_at;
  expires_at = to_microsecond r.expires_at;
  return_url = r.return_url;
  checkout = r.checkout;
  idempotency = r.idempotency;
  closed_at = 0;
}

pub build_opens :
    (id : Text) (r : Request) (s : Status) (created_at d : ℕ)
    → IsOpenable id r
    → d < r.expires_at
    → build id r s created_at d ≡ ok (opened id r s created_at)
unfolding build
build_opens id r s created_at d o h = rw (request_problems_none id r d o h)

pub build-opened :
    (id : Text) (r : Request) (s : Status) (created_at d : ℕ) (p : Payment)
    → build id r s created_at d ≡ ok p
    → (request_problems id r d ≡ []) × (p ≡ opened id r s created_at)
unfolding build
build-opened id r s created_at d p h = ground arith

-- `build` accepts a request exactly if its parts are read and its deadline lies after the moment that it
-- is measured from.
pub build-IsOpenable :
    (id : Text) (r : Request) (s : Status) (created_at d : ℕ)
    → IsOk (build id r s created_at d) ↔ (IsOpenable id r × (d < r.expires_at))
build-IsOpenable id r s created_at d = (
  λ o. request_problems-eq-nil id r d (build-opened id r s created_at d o.0 o.1).0,
  λ g. (opened id r s created_at, build_opens id r s created_at d g.0 g.1),
)
