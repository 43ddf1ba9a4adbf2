-- ===== src/Scenarios/Networks.antt =====
-- Two instances that read one network.
use sucopay.Prelude.{ℕ, ◌+◌, ◌≡◌, ◌≢◌, refl, inl, inr, false, List, [], ◌∷◌, some, err, arith}
use sucopay.Text.{Text, text_eq, text_eq_iff, codes}
use sucopay.Observe.Lease.{lease_ttl, lookup, acquire}
use sucopay.Observe.Lease.Exclusion.{
  Call, acquiring, renewing, releasing, handed, after, lease_exclusive,
}
use sucopay.Observe.Cursor.{Position, Row, get, advance, moved, bigint}
use sucopay.Observe.Cursor.Moves.{advance_once, has_one_row}

-- Another instance asks for the name half a minute on, renews what it has not got and releases it.
abbrev calls : List Call
calls =
    record { kind = acquiring; holder = codes "b"; name = codes "polygon"; now = 30_000_000_005 }
    ∷ record { kind = renewing; holder = codes "b"; name = codes "polygon"; now = 7 }
    ∷ record { kind = releasing; holder = codes "b"; name = codes "polygon"; now = 7 }
    ∷ []

others : codes "b" ≢ codes "a"
unfolding text_eq
others e = ground (arith, (text_eq_iff (codes "b") (codes "a")).1 e)

lease_exclusive_example :
    (handed (codes "polygon") calls (acquire (codes "a") (codes "polygon") 5 []).1 ≡ false)
    × (lookup (codes "polygon") (after calls (acquire (codes "a") (codes "polygon") 5 []).1)
        ≡ some (record { name = codes "polygon"; holder = codes "a"; expires_at = 5 + lease_ttl }))
unfolding acquire
lease_exclusive_example =
    lease_exclusive (codes "a") (codes "polygon") 5 [] calls refl
      (inr (others, omega arith), (inr (others, omega arith), (inr (others, omega arith), tt)))

abbrev block : ℕ → Text → Position
block height hash = record { height = height; hash = hash; time = 0 }

abbrev row : Position → ℕ → Row
row at now = record { network = codes "polygon"; position = at; updated_at = now }

advance_once_example :
    (advance
        (codes "polygon")
        (block 7 (codes "a"))
        (block 8 (codes "x"))
        4
        (row (block 9 (codes "b")) 3 ∷ [])
      ≡ err moved)
    × (get (codes "polygon") (row (block 9 (codes "b")) 3 ∷ []) ≡ some (block 9 (codes "b")))
unfolding advance bigint has_one_row text_eq
advance_once_example =
    advance_once (codes "polygon") (block 7 (codes "a")) (block 9 (codes "b")) (block 8 (codes "x"))
      3 4 (row (block 7 (codes "a")) 2 ∷ []) (row (block 9 (codes "b")) 3 ∷ []) refl
      (inl (omega arith)) (omega arith) refl
