-- ===== src/Observe/Lease/Exclusion.antt =====
-- Calls of several instances for one name.
use sucopay.Prelude.{
  ℕ, ◌+◌, ◌≤◌, ◌≡◌, ◌≢◌, ◌⊎◌, refl, Bool, true, false, ◌&&◌, ◌||◌, List, [], ◌∷◌, some, arith,
}
use sucopay.Text.{Text, text_eq, text_eq_iff, text_eq_refl}
use sucopay.Observe.Lease.{Lease, lease_ttl, lookup, granted, acquire, renew, release}

-- A call that an instance makes.
pub data Kind : Type 0 where
  acquiring renewing releasing : Kind

pub record Call : Type 0 where
  pub kind : Kind
  pub holder : Text
  pub name : Text
  pub now : ℕ

-- Whether the call hands the name to the instance, and the table that it leaves.
unfoldable pub make : Call → List Lease → Bool × List Lease
unfolding acquire renew release
make c t = elim c.kind [
  | acquiring ↦ acquire c.holder c.name c.now t
  | renewing ↦ renew c.holder c.name c.now t
  | releasing ↦ (false, release c.holder c.name t)
]

-- Whether one of some calls hands a name to somebody, and the table after them.
unfoldable pub handed : Text → List Call → List Lease → Bool
handed name [] t = false
handed name (c ∷ cs) t = text_eq c.name name && (make c t).0 || handed name cs (make c t).1

unfoldable pub after : List Call → List Lease → List Lease
after [] t = t
after (c ∷ cs) t = after cs (make c t).1

-- Calls that are not the holder's own for the name, made by a moment.
abbrev pub AreOthers : Text → Text → ℕ → List Call → Type 0
AreOthers holder name until_ [] = Unit
AreOthers holder name until_ (c ∷ cs) =
    ((c.name ≢ name) ⊎ ((c.holder ≢ holder) × (c.now ≤ until_))) × AreOthers holder name until_ cs

module _ (l : Lease) where
  acquire-keeps :
      (c : Call) (t : List Lease)
      → lookup l.name t ≡ some l
      → (c.name ≢ l.name) ⊎ ((c.holder ≢ l.holder) × (c.now ≤ l.expires_at))
      → (text_eq c.name l.name && (acquire c.holder c.name c.now t).0 ≡ false)
        × (lookup l.name (acquire c.holder c.name c.now t).1 ≡ some l)
  unfolding acquire lookup granted
  acquire-keeps c [] h o = absurd (ground arith)
  acquire-keeps c (x ∷ t) h o = ground (
    arith,
    acquire-keeps c t,
    text_eq_iff x.name c.name,
    text_eq_iff x.name l.name,
    text_eq_iff c.name l.name,
    text_eq_iff x.holder c.holder,
  )

  renew-keeps :
      (c : Call) (t : List Lease)
      → lookup l.name t ≡ some l
      → (c.name ≢ l.name) ⊎ ((c.holder ≢ l.holder) × (c.now ≤ l.expires_at))
      → (text_eq c.name l.name && (renew c.holder c.name c.now t).0 ≡ false)
        × (lookup l.name (renew c.holder c.name c.now t).1 ≡ some l)
  unfolding renew lookup granted
  renew-keeps c [] h o = absurd (ground arith)
  renew-keeps c (x ∷ t) h o = ground (
    arith,
    renew-keeps c t,
    text_eq_iff x.name c.name,
    text_eq_iff x.name l.name,
    text_eq_iff c.name l.name,
    text_eq_iff x.holder c.holder,
  )

  release-keeps :
      (c : Call) (t : List Lease)
      → lookup l.name t ≡ some l
      → (c.name ≢ l.name) ⊎ ((c.holder ≢ l.holder) × (c.now ≤ l.expires_at))
      → lookup l.name (release c.holder c.name t) ≡ some l
  unfolding release lookup
  release-keeps c [] h o = absurd (ground arith)
  release-keeps c (x ∷ t) h o = ground (
    arith,
    release-keeps c t,
    text_eq_iff x.name c.name,
    text_eq_iff x.name l.name,
    text_eq_iff c.name l.name,
    text_eq_iff x.holder c.holder,
  )

  make-keeps :
      (c : Call) (t : List Lease)
      → lookup l.name t ≡ some l
      → (c.name ≢ l.name) ⊎ ((c.holder ≢ l.holder) × (c.now ≤ l.expires_at))
      → (text_eq c.name l.name && (make c t).0 ≡ false) × (lookup l.name (make c t).1 ≡ some l)
  unfolding make
  make-keeps c t h o =
      ground (arith, acquire-keeps c t h o, renew-keeps c t h o, release-keeps c t h o)

  after-keeps :
      (cs : List Call) (t : List Lease)
      → lookup l.name t ≡ some l
      → AreOthers l.holder l.name l.expires_at cs
      → (handed l.name cs t ≡ false) × (lookup l.name (after cs t) ≡ some l)
  unfolding handed after
  after-keeps [] t h o = (refl, h)
  after-keeps (c ∷ cs) t h (o, os) =
      let (no_one, same) = make-keeps c t h o in
      let rest = after-keeps cs (make c t).1 same os in (ground arith, rest.1)

lookup-acquire :
    (holder name : Text) (now : ℕ) (t : List Lease)
    → (acquire holder name now t).0 ≡ true
    → lookup name (acquire holder name now t).1
      ≡ some (record { name = name; holder = holder; expires_at = now + lease_ttl })
unfolding acquire lookup granted
lookup-acquire holder name now [] h = ground (arith, text_eq_refl name)
lookup-acquire holder name now (x ∷ t) h =
    ground (arith, lookup-acquire holder name now t, text_eq_refl name)

-- Once `Acquire` has told an instance that it holds a name, no call of `Acquire` or `Renew` tells
-- another one so until the lease has run out: whatever the others call for that name by the moment
-- that it runs out at, and whoever calls for other names, nobody else is handed it and the lease
-- stands as it was.
pub lease_exclusive :
    (holder name : Text) (now : ℕ) (t : List Lease) (cs : List Call)
    → (acquire holder name now t).0 ≡ true
    → AreOthers holder name (now + lease_ttl) cs
    → (handed name cs (acquire holder name now t).1 ≡ false)
      × (lookup name (after cs (acquire holder name now t).1)
          ≡ some (record { name = name; holder = holder; expires_at = now + lease_ttl }))
lease_exclusive holder name now t cs h o =
    after-keeps (record { name = name; holder = holder; expires_at = now + lease_ttl }) cs
      (acquire holder name now t).1 (lookup-acquire holder name now t h) o
