-- ===== src/Credential/Store.antt =====
-- internal/credential/postgres.go: the statements on credentials. HMAC-SHA256 of a token under a key,
-- `Hash`, is the parameter `hash` of what stands behind them.
pub mod Promise
pub mod Found
pub mod Revoked
use sucopay.Prelude.{
  ℕ, ◌+◌, ◌*◌, Bool, true, false, not, ◌&&◌, ◌||◌, List, [], ◌∷◌, ◌++◌, Option, none, some, ltb,
  leb, ◌==◌, if◌then◌else◌, is_some, get_or, any, keep, map, sort_by, Result, ok, err, ◌>>◌,
}
use sucopay.Text.{Text, text_eq, text_leb}
use sucopay.Payment.Attempt.{second}
use sucopay.Credential.{
  Scope, scope_account, Access, read_only, read_write, other, InForce, none_in_force,
  read_only_in_force, read_write_in_force, Credential, CredentialError, not_found, constraint,
}

-- A row of credentials; the time zero stands for none in a `Credential` only.
pub record CredentialRow : Type 0 where
  pub id : Text
  pub account : Option Text
  pub scope : Scope
  pub access : Access
  pub hash : Text
  pub key_id : Text
  pub created_at : ℕ
  pub revoked_at : Option ℕ
  pub last_used_at : Option ℕ

-- `Postgres`: the key, as what `Hash` makes of a token under it, and its name.
pub record Keyed : Type 0 where
  pub hash : Text → Text
  pub key_id : Text

-- The tables accounts and credentials.
pub record Tables : Type 0 where
  pub accounts : List Text
  pub rows : List CredentialRow

-- `Accounts`
unfoldable pub accounts : Tables → List Text
accounts t = t.accounts

-- `scan`
unfoldable pub scan : CredentialRow → Credential
scan r = record {
  id = r.id;
  scope = r.scope;
  account = get_or r.account [];
  access = r.access;
  key_id = r.key_id;
  last_used_at = get_or r.last_used_at 0;
}

unfoldable pub is_read_or_write : Access → Bool
is_read_or_write (other w) = false
is_read_or_write _ = true

-- A row with the identifier, or with the hash.
unfoldable pub clashes : Text → Text → CredentialRow → Bool
clashes id hash r = text_eq r.id id || text_eq r.hash hash

-- `Create`, of the identifier and the token that were minted
unfoldable pub create :
    Keyed → Text → Text → Text → Access → ℕ → Tables → Result CredentialError Tables
unfolding is_read_or_write clashes
create k id token account access now t =
    let row : CredentialRow = record {
      id = id;
      account = some account;
      scope = scope_account;
      access = access;
      hash = k.hash token;
      key_id = k.key_id;
      created_at = now;
      revoked_at = none;
      last_used_at = none;
    } in
    if not (is_read_or_write access)
      || (any (clashes id (k.hash token)) t.rows || not (any (text_eq account) t.accounts))
    then err constraint
    else ok (record t { rows = row ∷ t.rows })

unfoldable pub presents : Keyed → Text → CredentialRow → Bool
presents k token r =
    text_eq r.hash (k.hash token) && (text_eq r.key_id k.key_id && not (is_some r.revoked_at))

unfoldable pub find_from : Keyed → Text → List CredentialRow → Result CredentialError Credential
unfolding presents scan
find_from k token [] = err not_found
find_from k token (r ∷ rs) =
    let rest = find_from k token rs in if presents k token r then ok (scan r) else rest

-- `FindByToken`
unfoldable pub find_by_token : Keyed → Text → Tables → Result CredentialError Credential
unfolding find_from
find_by_token k token t = find_from k token t.rows

-- `order by last_used_at desc nulls last, created_at desc, id`
unfoldable pub made_before : CredentialRow → CredentialRow → Bool
unfolding text_leb
made_before x y =
    ltb y.created_at x.created_at || x.created_at == y.created_at && text_leb x.id y.id

unfoldable pub listed_before : CredentialRow → CredentialRow → Bool
unfolding made_before
listed_before x y = elim x.last_used_at [
  | none ↦ elim y.last_used_at [ none ↦ made_before x y | some b ↦ false ]
  | some a ↦ elim y.last_used_at [ none ↦ true | some b ↦ ltb b a || a == b && made_before x y ]
]

unfoldable pub stands : CredentialRow → Bool
stands r = not (is_some r.revoked_at)

-- `List`
unfoldable pub list : Tables → List Credential
unfolding scan stands listed_before
list t = map scan (sort_by listed_before (keep stands t.rows))

unfoldable pub writes : Access → Bool
writes read_write = true
writes _ = false

unfoldable pub standing_writes : CredentialRow → Bool
unfolding stands writes
standing_writes r = stands r && writes r.access

-- `InForce`
unfoldable pub in_force : Tables → InForce
unfolding stands standing_writes
in_force t =
    if any standing_writes t.rows
    then read_write_in_force
    else if any stands t.rows
    then read_only_in_force
    else none_in_force

unfoldable pub revoked : Text → ℕ → CredentialRow → CredentialRow
revoked id now r =
    if text_eq r.id id then record r { revoked_at = some (get_or r.revoked_at now) } else r

-- `Revoke`
unfoldable pub revoke : Text → ℕ → Tables → Result CredentialError Tables
unfolding revoked
revoke id now t =
    if any (λ r. text_eq r.id id) t.rows
    then ok (record t { rows = map (revoked id now) t.rows })
    else err not_found

-- `useInterval`
abbrev pub use_interval : ℕ
use_interval = 3600 * second

unfoldable pub used : Text → ℕ → CredentialRow → CredentialRow
used id now r =
    if text_eq r.id id
      && (elim r.last_used_at [ none ↦ true | some at ↦ ltb (at + use_interval) now ])
    then record r { last_used_at = some now }
    else r

-- `RecordUse`
unfoldable pub record_use : Credential → ℕ → Tables → Tables
unfolding used
record_use c now t =
    if not (c.last_used_at == 0) && leb now (c.last_used_at + use_interval)
    then t
    else record t { rows = map (used c.id now) t.rows }
