-- ===== src/Observe/Lease.antt =====
-- internal/observe/lease.go: each name is handed to one instance at a time. The table leases is a
-- list of rows with different names; `now` is the database's clock.
pub mod Exclusion
use sucopay.Prelude.{
  ℕ, ◌+◌, ◌*◌, Bool, true, false, not, ◌&&◌, ◌||◌, List, [], ◌∷◌, Option, none, some, ltb,
  if◌then◌else◌,
}
use sucopay.Text.{Text, text_eq}
use sucopay.Payment.Attempt.{second}

-- `LeaseTTL`
abbrev pub lease_ttl : ℕ
lease_ttl = 30 * second

-- A row of leases.
pub record Lease : Type 0 where
  pub name : Text
  pub holder : Text
  pub expires_at : ℕ

-- The row of a name.
unfoldable pub lookup : Text → List Lease → Option Lease
lookup name [] = none
lookup name (l ∷ t) = let rest = lookup name t in if text_eq l.name name then some l else rest

granted : Text → Text → ℕ → Lease
granted holder name now = record { name = name; holder = holder; expires_at = now + lease_ttl }

-- `Acquire` of an instance: whether it holds the name now, and the table.
unfoldable pub acquire : Text → Text → ℕ → List Lease → Bool × List Lease
unfolding granted
acquire holder name now [] = (true, granted holder name now ∷ [])
acquire holder name now (l ∷ t) =
    let rest = acquire holder name now t in
    if text_eq l.name name
    then (if ltb l.expires_at now || text_eq l.holder holder
        then (true, granted holder name now ∷ t)
        else (false, l ∷ t))
    else (rest.0, l ∷ rest.1)

-- `Renew`
unfoldable pub renew : Text → Text → ℕ → List Lease → Bool × List Lease
unfolding granted
renew holder name now [] = (false, [])
renew holder name now (l ∷ t) =
    let rest = renew holder name now t in
    if text_eq l.name name
    then (if text_eq l.holder holder then (true, granted holder name now ∷ t) else (false, l ∷ t))
    else (rest.0, l ∷ rest.1)

-- `Release`
unfoldable pub release : Text → Text → List Lease → List Lease
release holder name [] = []
release holder name (l ∷ t) =
    let rest = release holder name t in
    if text_eq l.name name && text_eq l.holder holder then t else l ∷ rest
