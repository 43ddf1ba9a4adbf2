-- ===== src/Scenarios/Credentials.antt =====
-- A credential that is made, found, and revoked.
use sucopay.Prelude.{List, Option, some, none, ℕ, ◌+◌, ◌≡◌, refl, false, [], ◌∷◌, ok, replicate}
use sucopay.Text.{Text, text_eq, codes}
use sucopay.Credential.{read_write, scope_account, parse_id, new_id}
use sucopay.Credential.Minted.{parse_id-new_id}
use sucopay.Credential.Store.{
  Keyed, CredentialRow, scan, Tables, create, find_by_token, revoke, in_force, list,
}
use sucopay.Credential.Store.Revoked.{done, then_, created, revoked_for_good}
use sucopay.Credential.Store.Found.{adds_up, in_force-list}
use sucopay.Credential.Store.Promise.{
  Call, make, drop, run_all, promise_all, opens, calls_keep_promise,
}
use sucopay.Scenarios.Samples.{noon}

parse_id-new_id_example : parse_id (new_id (replicate 16 255)) ≡ ok (new_id (replicate 16 255))
parse_id-new_id_example = parse_id-new_id (replicate 16 255) refl refl

-- A hash that puts the name of the key in front of the token.
abbrev keyed : Keyed
keyed = record { hash = λ t. b'k' ∷ t; key_id = codes "k1" }

abbrev bare : Tables
bare = record { accounts = codes "acme" ∷ []; rows = [] }

abbrev row_of : Text → Text → ℕ → Option ℕ → CredentialRow
row_of id token now revoked = record {
  id = id;
  account = some (codes "acme");
  scope = scope_account;
  access = read_write;
  hash = b'k' ∷ token;
  key_id = codes "k1";
  created_at = now;
  revoked_at = revoked;
  last_used_at = none;
}

abbrev with_one : Tables
with_one = record bare { rows = row_of (codes "one") (codes "t1") noon none ∷ [] }

made_one : create keyed (codes "one") (codes "t1") (codes "acme") read_write noon bare ≡ ok with_one
unfolding create text_eq
made_one = refl

abbrev with_none : Tables
with_none = record bare { rows = row_of (codes "one") (codes "t1") noon (some (noon + 1)) ∷ [] }

abbrev row_two : CredentialRow
row_two = row_of (codes "two") (codes "t2") (noon + 2) none

abbrev with_two : Tables
with_two = record bare { rows = row_two ∷ with_none.rows }

revoked_one : revoke (codes "one") (noon + 1) with_one ≡ ok with_none
unfolding revoke text_eq
revoked_one = refl

made_two :
    create keyed (codes "two") (codes "t2") (codes "acme") read_write (noon + 2) with_none
    ≡ ok with_two
unfolding create text_eq
made_two = refl

found_two : find_by_token keyed (codes "t2") with_two ≡ ok (scan row_two)
unfolding find_by_token text_eq
found_two = refl

-- The second is found, and it is not the first, which was revoked.
revoked_for_good_example : text_eq (codes "two") (codes "one") ≡ false
unfolding scan
revoked_for_good_example =
    revoked_for_good (codes "one") (noon + 1) with_one with_none with_two keyed (codes "t2")
      (scan row_two) revoked_one
      (then_ done
        (created keyed (codes "two") (codes "t2") (codes "acme") read_write (noon + 2) made_two))
      found_two

in_force-list_example : in_force with_two ≡ adds_up (list with_two)
in_force-list_example = in_force-list with_two

-- One is made and revoked, and another is made.
abbrev calls : List Call
calls =
    make (codes "one") (codes "t1") (codes "acme") read_write noon
    ∷ drop (codes "one") (noon + 1)
    ∷ make (codes "two") (codes "t2") (codes "acme") read_write (noon + 2)
    ∷ []

called : run_all keyed calls bare ≡ ok with_two
unfolding run_all text_eq
called = refl

calls_keep_promise_example :
    opens keyed (codes "t1") with_two ≡ promise_all keyed calls (codes "t1") none
calls_keep_promise_example =
    calls_keep_promise keyed (codes "acme" ∷ []) calls with_two (codes "t1") called
