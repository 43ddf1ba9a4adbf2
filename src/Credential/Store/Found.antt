-- ===== src/Credential/Store/Found.antt =====
-- What a credential that was made is found as, and what the list says of those in force.
use sucopay.Prelude.{
  ℕ, ◌≡◌, refl, Bool, false, not, ◌||◌, List, [], ◌∷◌, any, keep, map, is_empty, sort_by, insert_by,
  ok, err, arith, if◌then◌else◌,
}
use sucopay.Text.{Text, text_eq, text_eq_refl}
use sucopay.Credential.{
  Access, Credential, not_found, scope_account, InForce, none_in_force, read_only_in_force,
  read_write_in_force,
}
use sucopay.Credential.Store.{
  CredentialRow, Keyed, Tables, scan, clashes, create, presents, find_from, find_by_token, list,
  in_force, stands, writes, standing_writes, listed_before,
}

-- Rows of other hashes present nothing.
unpresented :
    (k : Keyed) (token id : Text) (rs : List CredentialRow)
    → any (clashes id (k.hash token)) rs ≡ false
    → find_from k token rs ≡ err not_found
unfolding find_from presents clashes
unpresented k token id [] h = refl
unpresented k token id (r ∷ rs) h = ground (arith, unpresented k token id rs)

-- A token that was made is found as the credential that it was made for, it was found as nothing
-- before, and any other token whose hash is another is found as it was.
pub create-found :
    (k : Keyed) (id token account : Text) (access : Access) (now : ℕ) (t t' : Tables)
    → create k id token account access now t ≡ ok t'
    → (find_by_token k token t ≡ err not_found)
      × (find_by_token k token t'
          ≡ ok (record {
            id = id;
            scope = scope_account;
            account = account;
            access = access;
            key_id = k.key_id;
            last_used_at = 0;
          }))
      × ((word : Text)
          → text_eq (k.hash token) (k.hash word) ≡ false
          → find_by_token k word t' ≡ find_by_token k word t)
unfolding create find_by_token find_from presents scan
create-found k id token account access now t t' did = (
  unpresented k token id t.rows (ground arith),
  ground (arith, text_eq_refl (k.hash token), text_eq_refl k.key_id),
  λ word apart. ground (arith, apart),
)

-- What a list of credentials adds up to.
unfoldable pub adds_up : List Credential → InForce
unfolding writes
adds_up cs =
    if any (λ c. writes c.access) cs
    then read_write_in_force
    else if is_empty cs
    then none_in_force
    else read_only_in_force

any-insert_by :
    (b : CredentialRow → CredentialRow → Bool) (x : CredentialRow) (xs : List CredentialRow)
    → any (λ c. writes c.access) (map scan (insert_by b x xs))
      ≡ (writes x.access || any (λ c. writes c.access) (map scan xs))
unfolding scan
any-insert_by b x [] = refl
any-insert_by b x (y ∷ ys) = ground (arith, any-insert_by b x ys)

any-sort_by :
    (b : CredentialRow → CredentialRow → Bool) (xs : List CredentialRow)
    → any (λ c. writes c.access) (map scan (sort_by b (keep stands xs))) ≡ any standing_writes xs
unfolding scan standing_writes
any-sort_by b [] = refl
any-sort_by b (x ∷ xs) =
    ground (arith, any-sort_by b xs, any-insert_by b x (sort_by b (keep stands xs)))

empty-insert_by :
    (b : CredentialRow → CredentialRow → Bool) (x : CredentialRow) (xs : List CredentialRow)
    → is_empty (map scan (insert_by b x xs)) ≡ false
empty-insert_by b x [] = refl
empty-insert_by b x (y ∷ ys) = ground (arith)

empty-sort_by :
    (b : CredentialRow → CredentialRow → Bool) (xs : List CredentialRow)
    → is_empty (map scan (sort_by b (keep stands xs))) ≡ not (any stands xs)
empty-sort_by b [] = refl
empty-sort_by b (x ∷ xs) =
    ground (arith, empty-sort_by b xs, empty-insert_by b x (sort_by b (keep stands xs)))

-- What is said of the credentials in force is what their list adds up to.
pub in_force-list : (t : Tables) → in_force t ≡ adds_up (list t)
unfolding in_force list adds_up standing_writes
in_force-list t =
    ground (arith, any-sort_by listed_before t.rows, empty-sort_by listed_before t.rows)
