-- ===== src/Credential/Store/Promise.antt =====
-- The store of credentials against what it promises: a token opens what it was made for until that is
-- revoked, and when it was last used changes nothing of it.
use sucopay.Prelude.{
  ℕ, ◌≡◌, refl, Bool, true, false, not, List, [], ◌∷◌, Option, none, some, any, all, map, pairwise,
  Result, ok, err, ◌>>=◌, arith, if◌then◌else◌, Bool-cases, Result-cases, inl, inr,
}
use sucopay.Text.{Text, text_eq, text_eq_refl, text_eq→eq}
use sucopay.Credential.{Access, Credential, CredentialError, not_found, scope_account}
use sucopay.Credential.Store.{
  CredentialRow, Keyed, Tables, scan, clashes, create, presents, find_from, find_by_token, revoked,
  revoke, used, record_use,
}

pub data Call : Type 0 where
  make : Text → Text → Text → Access → ℕ → Call
  drop : Text → ℕ → Call
  use_it : Credential → ℕ → Call

-- What the store does for a call, and for one after another.
unfoldable pub run : Keyed → Call → Tables → Result CredentialError Tables
unfolding create revoke record_use
run k (make id token account access now) t = create k id token account access now t
run k (drop id now) t = revoke id now t
run k (use_it c now) t = ok (record_use c now t)

unfoldable pub run_all : Keyed → List Call → Tables → Result CredentialError Tables
unfolding run
run_all k [] t = ok t
run_all k (c ∷ cs) t = run k c t >>= run_all k cs

-- The promise: what a token opens after a call, from what it opened before.
unfoldable pub left : Text → Option Credential → Option Credential
left id none = none
left id (some c) = if text_eq c.id id then none else some c

unfoldable pub promise : Keyed → Call → Text → Option Credential → Option Credential
unfolding left
promise k (make id token account access now) word g =
    if text_eq (k.hash token) (k.hash word)
    then some (record {
      id = id;
      scope = scope_account;
      account = account;
      access = access;
      key_id = k.key_id;
      last_used_at = 0;
    })
    else g
promise k (drop id now) word g = left id g
promise k (use_it c now) word g = g

unfoldable pub promise_all : Keyed → List Call → Text → Option Credential → Option Credential
unfolding promise
promise_all k [] word g = g
promise_all k (c ∷ cs) word g = promise_all k cs word (promise k c word g)

-- What a token opens, but for when it was last used.
unfoldable pub opens_as : Result CredentialError Credential → Option Credential
opens_as (ok c) = some (record c { last_used_at = 0 })
opens_as (err e) = none

unfoldable pub opens : Keyed → Text → Tables → Option Credential
unfolding find_by_token opens_as
opens k word t = opens_as (find_by_token k word t)

-- Two rows of different hashes.
unfoldable apart : CredentialRow → CredentialRow → Bool
apart x y = not (text_eq y.hash x.hash)

module _ (f : CredentialRow → CredentialRow)
    (same : (r : CredentialRow) → (f r).hash ≡ r.hash) where
  all-map :
      (x : CredentialRow) (ys : List CredentialRow)
      → all (apart x) ys ≡ true
      → all (apart (f x)) (map f ys) ≡ true
  unfolding apart
  all-map x [] h = refl
  all-map x (y ∷ ys) h = ground (arith, all-map x ys, same x, same y)

  pairwise-map :
      (xs : List CredentialRow) → pairwise apart xs ≡ true → pairwise apart (map f xs) ≡ true
  pairwise-map [] h = refl
  pairwise-map (x ∷ xs) h = ground (arith, pairwise-map xs, all-map x xs)

revoked-hash : (id : Text) (now : ℕ) (r : CredentialRow) → (revoked id now r).hash ≡ r.hash
unfolding revoked
revoked-hash id now r = ground arith

used-hash : (id : Text) (now : ℕ) (r : CredentialRow) → (used id now r).hash ≡ r.hash
unfolding used
used-hash id now r = ground arith

fresh-apart :
    (id : Text) (x : CredentialRow) (rs : List CredentialRow)
    → any (clashes id x.hash) rs ≡ false
    → all (apart x) rs ≡ true
unfolding clashes apart
fresh-apart id x [] h = refl
fresh-apart id x (r ∷ rs) h = ground (arith, fresh-apart id x rs)

apart-find_from :
    (k : Keyed) (word : Text) (x : CredentialRow) (rs : List CredentialRow)
    → x.hash ≡ k.hash word
    → all (apart x) rs ≡ true
    → find_from k word rs ≡ err not_found
unfolding find_from presents apart
apart-find_from k word x [] e h = refl
apart-find_from k word x (r ∷ rs) e h = ground (arith, apart-find_from k word x rs e)

revoked-find_from :
    (k : Keyed) (word id : Text) (now : ℕ) (rs : List CredentialRow)
    → pairwise apart rs ≡ true
    → opens_as (find_from k word (map (revoked id now) rs))
      ≡ left id (opens_as (find_from k word rs))
unfolding find_from opens_as left presents scan revoked
revoked-find_from k word id now [] h = refl
revoked-find_from k word id now (r ∷ rs) h =
    let rest = revoked-find_from k word id now rs (ground arith) in
    elim (Bool-cases (text_eq r.hash (k.hash word))) [
      | inr n ↦ ground (arith, n, rest)
      | inl e ↦
          let gone =
            apart-find_from k word r rs (text_eq→eq r.hash (k.hash word) e) (ground arith) in
          ground (arith, e, rest, gone)
    ]

used-find_from :
    (k : Keyed) (word id : Text) (now : ℕ) (rs : List CredentialRow)
    → opens_as (find_from k word (map (used id now) rs)) ≡ opens_as (find_from k word rs)
unfolding find_from opens_as presents scan used
used-find_from k word id now [] = refl
used-find_from k word id now (r ∷ rs) = ground (arith, used-find_from k word id now rs)

-- The row that `Create` writes.
abbrev row_of : Keyed → Text → Text → Text → Access → ℕ → CredentialRow
row_of k id token account access now = record {
  id = id;
  account = some account;
  scope = scope_account;
  access = access;
  hash = k.hash token;
  key_id = k.key_id;
  created_at = now;
  revoked_at = none;
  last_used_at = none;
}

create-rows :
    (k : Keyed) (id token account : Text) (access : Access) (now : ℕ) (t u : Tables)
    → create k id token account access now t ≡ ok u
    → (u.rows ≡ row_of k id token account access now ∷ t.rows)
      × (any (clashes id (k.hash token)) t.rows ≡ false)
unfolding create
create-rows k id token account access now t u did = ground arith

run-apart :
    (k : Keyed) (c : Call) (t u : Tables)
    → run k c t ≡ ok u
    → pairwise apart t.rows ≡ true
    → pairwise apart u.rows ≡ true
unfolding run revoke record_use
run-apart k (make id token account access now) t u did h =
    let (rows, free) = create-rows k id token account access now t u did in
    let alone = fresh-apart id (row_of k id token account access now) t.rows free in
    ground (arith, rows, alone)
run-apart k (drop id now) t u did h =
    ground (arith, pairwise-map (revoked id now) (revoked-hash id now) t.rows)
run-apart k (use_it c now) t u did h =
    ground (arith, pairwise-map (used c.id now) (used-hash c.id now) t.rows)

run-promise :
    (k : Keyed) (c : Call) (word : Text) (t u : Tables)
    → run k c t ≡ ok u
    → pairwise apart t.rows ≡ true
    → opens k word u ≡ promise k c word (opens k word t)
unfolding run promise opens find_by_token find_from presents scan opens_as revoke record_use
run-promise k (make id token account access now) word t u did h =
    let (rows, free) = create-rows k id token account access now t u did in
    ground (arith, rows, text_eq_refl k.key_id)
run-promise k (drop id now) word t u did h = ground (arith, revoked-find_from k word id now t.rows)
run-promise k (use_it c now) word t u did h = ground (arith, used-find_from k word c.id now t.rows)

run_all-promise :
    (k : Keyed) (cs : List Call) (word : Text) (t u : Tables)
    → run_all k cs t ≡ ok u
    → pairwise apart t.rows ≡ true
    → opens k word u ≡ promise_all k cs word (opens k word t)
unfolding run_all promise_all
run_all-promise k [] word t u did h = ground arith
run_all-promise k (c ∷ cs) word t u did h = elim (Result-cases (run k c t)) [
  | inr (e, n) ↦ absurd (ground (arith, n))
  | inl (v, n) ↦
      let later = run_all-promise k cs word v u (ground (arith, n)) (run-apart k c t v n h) in
      let now = run-promise k c word t v n h in rw now at later
]

-- After any calls on a deployment that had no credentials, a token opens what the promise says.
pub calls_keep_promise :
    (k : Keyed) (accounts : List Text) (cs : List Call) (u : Tables) (word : Text)
    → run_all k cs (record { accounts = accounts; rows = [] }) ≡ ok u
    → opens k word u ≡ promise_all k cs word none
unfolding opens
calls_keep_promise k accounts cs u word did =
    run_all-promise k cs word (record { accounts = accounts; rows = [] }) u did refl
