-- ===== src/Webhook/Endpoints.antt =====
-- internal/webhook/postgres.go: the endpoints of an account. A minted identifier and a minted secret
-- are arguments, as the random source answers them.
use sucopay.Prelude.{
  ℕ, ◌+◌, Bool, true, false, not, ◌&&◌, ◌||◌, List, [], ◌∷◌, ◌++◌, Option, none, some, is_some, any,
  keep, sort_by, length, ltb, leb, ◌==◌, if◌then◌else◌, get_or, Result, ok, err, ◌>>=◌,
}
use sucopay.Text.{Text, text_eq, text_leb}
use sucopay.Webhook.{
  Hooks, EndpointRow, DeliveryRow, scope_account, HookError, not_found, too_many, failed,
  is_pending, max_endpoints, rotation_grace,
}

-- `id = $1 and account_id = $2 and deleted_at is null`
unfoldable pub is_of : Text → EndpointRow → Bool
is_of account e =
    elim e.account [ none ↦ false | some a ↦ text_eq a account ] && not (is_some e.deleted_at)

unfoldable pub is_endpoint : Text → Text → EndpointRow → Bool
unfolding is_of
is_endpoint account id e = text_eq e.id id && is_of account e

-- The first row that passes a test.
unfoldable pub find_row {ℓ} : {A : Type ℓ} → (A → Bool) → List A → Option A
find_row test [] = none
find_row test (x ∷ xs) = let rest = find_row test xs in if test x then some x else rest

-- The rows, with those that pass a test changed.
unfoldable pub update_rows {ℓ} : {A : Type ℓ} → (A → Bool) → (A → A) → List A → List A
update_rows test change [] = []
update_rows test change (x ∷ xs) = (if test x then change x else x) ∷ update_rows test change xs

-- `Registration`
pub record Registration : Type 0 where
  pub url : Text
  pub description : Text
  pub events : Option (List Text)

-- `Create`
unfoldable pub create :
    Text → Text → Text → Text → Registration → ℕ → Hooks → Result HookError (EndpointRow × Hooks)
unfolding is_of
create account id secret key_id r now h =
    let row : EndpointRow = record {
      id = id;
      scope = scope_account;
      account = some account;
      url = r.url;
      description = r.description;
      events = r.events;
      enabled = true;
      secret = secret;
      key_id = key_id;
      previous_secret = none;
      previous_until = none;
      created_at = now;
      deleted_at = none;
    } in
    if leb max_endpoints (length (keep (is_of account) h.endpoints))
    then err too_many
    else ok (row, record h { endpoints = h.endpoints ++ row ∷ [] })

-- `order by created_at, id`
unfoldable pub listed_before : EndpointRow → EndpointRow → Bool
unfolding text_leb
listed_before x y =
    ltb x.created_at y.created_at || x.created_at == y.created_at && text_leb x.id y.id

-- `List`
unfoldable pub list : Text → Hooks → List EndpointRow
unfolding is_of listed_before
list account h = sort_by listed_before (keep (is_of account) h.endpoints)

-- `Get`
unfoldable pub get : Text → Text → Hooks → Result HookError EndpointRow
unfolding is_endpoint find_row
get account id h = elim (find_row (is_endpoint account id) h.endpoints) [
  | none ↦ err not_found
  | some e ↦ ok e
]

-- `Changes`; the events may be changed to none
pub record Changes : Type 0 where
  pub url : Option Text
  pub description : Option Text
  pub events : Option (Option (List Text))
  pub enabled : Option Bool

unfoldable pub changed : Changes → EndpointRow → EndpointRow
changed c e = record e {
  url = get_or c.url e.url;
  description = get_or c.description e.description;
  events = get_or c.events e.events;
  enabled = get_or c.enabled e.enabled;
}

-- A statement that changes one endpoint of an account, or finds none.
unfoldable pub change_endpoint :
    Text → Text → (EndpointRow → EndpointRow) → Hooks → Result HookError Hooks
unfolding is_endpoint update_rows
change_endpoint account id change h =
    if any (is_endpoint account id) h.endpoints
    then ok (record h { endpoints = update_rows (is_endpoint account id) change h.endpoints })
    else err not_found

-- `Update`
unfoldable pub update : Text → Text → Changes → Hooks → Result HookError (EndpointRow × Hooks)
unfolding changed change_endpoint get
update account id c h =
    change_endpoint account id (changed c) h >>= λ h'. get account id h' >>= λ e. ok (e, h')

unfoldable pub rotated : Text → Text → ℕ → EndpointRow → EndpointRow
rotated secret key_id now e = record e {
  previous_secret = some e.secret;
  previous_until = some (now + rotation_grace);
  secret = secret;
  key_id = key_id;
}

-- `Rotate`
unfoldable pub rotate : Text → Text → Text → Text → ℕ → Hooks → Result HookError Hooks
unfolding rotated change_endpoint
rotate account id secret key_id now h = change_endpoint account id (rotated secret key_id now) h

-- `state = 'pending'` of the deliveries of an endpoint
unfoldable pub waits_for : Text → DeliveryRow → Bool
unfolding is_pending
waits_for endpoint d = text_eq d.endpoint endpoint && is_pending d.state

unfoldable pub given_up : DeliveryRow → DeliveryRow
given_up d = record d { state = failed; next_at = none }

unfoldable pub closed : ℕ → EndpointRow → EndpointRow
closed now e = record e { deleted_at = some now; enabled = false }

-- `Delete`
unfoldable pub delete : Text → Text → ℕ → Hooks → Result HookError Hooks
unfolding change_endpoint waits_for given_up update_rows closed
delete account id now h = change_endpoint account id (closed now) h >>= λ h'.
    ok (record h' { deliveries = update_rows (waits_for id) given_up h'.deliveries })

-- What `Cipher.Open` makes of what a secret was sealed as, and the secret before it if that is still
-- in its grace; one that does not open is left out.
unfoldable pub previous : (Text → Option Text) → ℕ → EndpointRow → List Text
previous opened now e = elim e.previous_secret [
  | none ↦ []
  | some old ↦ elim e.previous_until [
    | none ↦ []
    | some until ↦ elim (opened old) [
      | none ↦ []
      | some secret ↦ if ltb now until then secret ∷ [] else []
    ]
  ]
]

-- `Secrets`, by the identifier alone
unfoldable pub secrets : (Text → Option Text) → Text → ℕ → Hooks → Result HookError (List Text)
unfolding find_row previous
secrets opened id now h = elim (find_row (λ (e : EndpointRow). text_eq e.id id) h.endpoints) [
  | none ↦ err not_found
  | some e ↦ elim (opened e.secret) [
    | none ↦ err HookError.sealed
    | some first ↦ ok (first ∷ previous opened now e)
  ]
]
