-- ===== src/Credential/Store/Revoked.antt =====
-- What becomes of a credential that was revoked.
use sucopay.Prelude.{
  ℕ, ◌≡◌, sym, inl, inr, Bool-cases, refl, Bool, true, false, not, ◌&&◌, ◌||◌, List, [], ◌∷◌, any,
  all, map, is_some, ok, arith,
}
use sucopay.Text.{Text, text_eq, text_eq_refl, text_eq→eq}
use sucopay.Credential.{Access, Credential}
use sucopay.Credential.Store.{
  CredentialRow, Keyed, Tables, scan, clashes, create, presents, find_from, find_by_token, revoked,
  revoke, used, record_use,
}

-- A call that writes to the tables, and any number of them.
infix 4 ◌⟹◌
pub data ◌⟹◌ : Tables → Tables → Type 0 where
  created :
      (k : Keyed) (id token account : Text) (access : Access) (now : ℕ) {t t' : Tables}
      → create k id token account access now t ≡ ok t'
      → t ⟹ t'
  dropped : (id : Text) (now : ℕ) {t t' : Tables} → revoke id now t ≡ ok t' → t ⟹ t'
  noted : (c : Credential) (now : ℕ) {t : Tables} → t ⟹ record_use c now t

infix 4 ◌⟹*◌
pub data ◌⟹*◌ : Tables → Tables → Type 0 where
  done : {t : Tables} → t ⟹* t
  then_ : {t u v : Tables} → t ⟹* u → u ⟹ v → t ⟹* v

-- A row of an identifier is there, and each is revoked.
unfoldable spent : Text → CredentialRow → Bool
spent id r = not (text_eq r.id id) || is_some r.revoked_at

unfoldable is_spent : Text → List CredentialRow → Bool
unfolding spent
is_spent id rs = any (λ r. text_eq r.id id) rs && all (spent id) rs

module _ (id : Text) where
  any-revoked :
      (i : Text) (now : ℕ) (rs : List CredentialRow)
      → any (λ r. text_eq r.id id) (map (revoked i now) rs) ≡ any (λ r. text_eq r.id id) rs
  unfolding revoked
  any-revoked i now [] = refl
  any-revoked i now (r ∷ rs) = ground (arith, any-revoked i now rs)

  any-used :
      (i : Text) (now : ℕ) (rs : List CredentialRow)
      → any (λ r. text_eq r.id id) (map (used i now) rs) ≡ any (λ r. text_eq r.id id) rs
  unfolding used
  any-used i now [] = refl
  any-used i now (r ∷ rs) = ground (arith, any-used i now rs)

  all-revoked :
      (i : Text) (now : ℕ) (rs : List CredentialRow)
      → all (spent id) rs ≡ true
      → all (spent id) (map (revoked i now) rs) ≡ true
  unfolding revoked spent
  all-revoked i now [] h = refl
  all-revoked i now (r ∷ rs) h = ground (arith, all-revoked i now rs)

  all-used :
      (i : Text) (now : ℕ) (rs : List CredentialRow)
      → all (spent id) rs ≡ true
      → all (spent id) (map (used i now) rs) ≡ true
  unfolding used spent
  all-used i now [] h = refl
  all-used i now (r ∷ rs) h = ground (arith, all-used i now rs)

  revoked-spent :
      (now : ℕ) (rs : List CredentialRow) → all (spent id) (map (revoked id now) rs) ≡ true
  unfolding revoked spent
  revoked-spent now [] = refl
  revoked-spent now (r ∷ rs) = ground (arith, revoked-spent now rs)

  not_clashing :
      (hash i : Text) (rs : List CredentialRow)
      → any (λ r. text_eq r.id id) rs ≡ true
      → any (clashes i hash) rs ≡ false
      → text_eq i id ≡ false
  unfolding clashes
  not_clashing hash i [] h k = cc
  not_clashing hash i (r ∷ rs) h k = elim (Bool-cases (text_eq r.id id)) [
    | inl e ↦ elim (Bool-cases (text_eq i id)) [
      | inr n ↦ n
      | inl n ↦
          let same : r.id ≡ i = rw (text_eq→eq r.id id e) (sym (text_eq→eq i id n)) in
          let found : text_eq r.id i ≡ true = rw same (text_eq_refl i) in
          absurd (ground (arith, found))
    ]
    | inr e ↦ not_clashing hash i rs (ground (arith, e)) (ground arith)
  ]

  keeps : {t u : Tables} → t ⟹ u → is_spent id t.rows ≡ true → is_spent id u.rows ≡ true
  unfolding is_spent create revoke record_use
  keeps (created k i token account access now {t = t} did) h =
      ground (arith, not_clashing (k.hash token) i t.rows)
  keeps (dropped i now {t = t} did) h =
      ground (arith, any-revoked i now t.rows, all-revoked i now t.rows)
  keeps (noted c now {t = t}) h = ground (arith, any-used c.id now t.rows, all-used c.id now t.rows)

  keeps_all : {t u : Tables} → t ⟹* u → is_spent id t.rows ≡ true → is_spent id u.rows ≡ true
  keeps_all done h = h
  keeps_all (then_ steps step) h = keeps step (keeps_all steps h)

  found-spent :
      (k : Keyed) (token : Text) (c : Credential) (rs : List CredentialRow)
      → all (spent id) rs ≡ true
      → find_from k token rs ≡ ok c
      → text_eq c.id id ≡ false
  unfolding spent find_from presents scan
  found-spent k token c [] h f = absurd (ground arith)
  found-spent k token c (r ∷ rs) h f = elim (Bool-cases (presents k token r)) [
    | inl e ↦ ground (arith, e)
    | inr e ↦ found-spent k token c rs (ground arith) (ground (arith, e))
  ]

-- Once a credential is revoked, no token finds it again, under any key, whatever calls come after.
pub revoked_for_good :
    (id : Text) (now : ℕ) (t t' u : Tables) (k : Keyed) (token : Text) (c : Credential)
    → revoke id now t ≡ ok t'
    → t' ⟹* u
    → find_by_token k token u ≡ ok c
    → text_eq c.id id ≡ false
unfolding revoke find_by_token is_spent
revoked_for_good id now t t' u k token c did steps found =
    let spent_now : is_spent id t'.rows ≡ true =
      ground (arith, revoked-spent id now t.rows, any-revoked id id now t.rows) in
    let spent_then = keeps_all id steps spent_now in
    found-spent id k token c u.rows (ground arith) found
