-- ===== src/Payment/Store/Held.antt =====
-- What the refunds of a payment hold, as rows are added and moved.
use sucopay.Prelude.{
  ℕ, ◌+◌, ◌≤◌, ◌≡◌, refl, Bool, true, false, not, ◌&&◌, ◌||◌, List, [], ◌∷◌, ◌++◌, some, ok, arith,
  any, all,
}
use sucopay.Text.{Text, text_eq, text_eq_iff}
use sucopay.Text.Decimal.{plus, set_string, print}
use sucopay.Text.Decimal.RoundTrip.{set_string-digits, value_from-print, digits-print, print-ne-nil}
use sucopay.Payment.Money.{pos}
use sucopay.Payment.RefundStatus
use sucopay.Payment.RefundStatus.{refund_status_eq}
use sucopay.Payment.Refund.{Refund}
use sucopay.Payment.Store.{RefundRow}
use sucopay.Payment.Store.Refunds.{
  remaining, sub, held_by, below, is_refund, refund_row, is_version, update_refunds,
}

set_string-print : (n : ℕ) → set_string (print n) ≡ some (plus n)
set_string-print n =
    ground (arith, set_string-digits (print n), value_from-print n, digits-print n, print-ne-nil n)

pub remaining-print : (m n : ℕ) → remaining (print m) (print n) ≡ ok (sub (pos m) (pos n))
unfolding remaining
remaining-print m n = ground (arith, set_string-print m, set_string-print n)

-- A refund that is not refused for its amount leaves the sum within what arrived.
pub fits_below : (m n amount : ℕ) → below (sub (pos m) (pos n)) amount ≡ false → n + amount ≤ m
unfolding below sub
fits_below m n amount h = ground arith

pub held_by-append :
    (a i : Text) (rows : List RefundRow) (row : RefundRow)
    → held_by a i (rows ++ row ∷ []) ≡ held_by a i rows + held_by a i (row ∷ [])
unfolding held_by
held_by-append a i [] row = omega arith
held_by-append a i (x ∷ rows) row = ground (arith, held_by-append a i rows row)

-- Two refunds of one account that share an identifier.
abbrev pub same_refund : RefundRow → RefundRow → Bool
same_refund x y = text_eq y.account x.account && text_eq y.refund.id x.refund.id

unfoldable pub are_distinct : List RefundRow → Bool
are_distinct [] = true
are_distinct (row ∷ rows) = not (any (same_refund row) rows) && are_distinct rows

abbrev pub is_held : RefundRow → Bool
is_held row = not (refund_status_eq row.refund.status RefundStatus.expired)

same_refund-any :
    (a i id : Text) (x row : RefundRow) (rows : List RefundRow)
    → refund_row a i id rows ≡ some row
    → text_eq x.account a ≡ true
    → text_eq x.refund.id id ≡ true
    → any (same_refund x) rows ≡ true
unfolding refund_row is_refund
same_refund-any a i id x row [] h p q = absurd (ground arith)
same_refund-any a i id x row (y ∷ rows) h p q = ground (
  arith,
  same_refund-any a i id x row rows,
  text_eq_iff x.account a,
  text_eq_iff x.refund.id id,
  text_eq_iff y.account a,
  text_eq_iff y.refund.id id,
)

-- Every row that an update of the version meets holds its amount.
abbrev pub met_held : Text → Text → ℕ → RefundRow → Bool
met_held a id at row = not (is_version a id at row) || is_held row

none_met :
    (a i id : Text) (at : ℕ) (x : RefundRow) (rows : List RefundRow)
    → any (same_refund x) rows ≡ false
    → text_eq x.account a ≡ true
    → text_eq x.refund.id id ≡ true
    → all (met_held a id at) rows ≡ true
unfolding is_version
none_met a i id at x [] h p q = refl
none_met a i id at x (y ∷ rows) h p q = ground (
  arith,
  none_met a i id at x rows,
  text_eq_iff x.account a,
  text_eq_iff x.refund.id id,
  text_eq_iff y.account a,
  text_eq_iff y.refund.id id,
)

pub found_met_held :
    (a i id : Text) (at : ℕ) (row : RefundRow) (rows : List RefundRow)
    → are_distinct rows ≡ true
    → refund_row a i id rows ≡ some row
    → is_held row ≡ true
    → all (met_held a id at) rows ≡ true
unfolding are_distinct refund_row is_refund is_version
found_met_held a i id at row [] d h held = refl
found_met_held a i id at row (y ∷ rows) d h held = ground (
  arith,
  found_met_held a i id at row rows,
  none_met a i id at y rows,
  same_refund-any a i id y row rows,
)

pub held_by-update :
    (a i : Text) (clock : ℕ) (b : Text) (r : Refund) (at : ℕ) (rows : List RefundRow)
    → all (met_held b r.id at) rows ≡ true
    → held_by a i (update_refunds clock b r at rows) ≤ held_by a i rows
unfolding held_by update_refunds
held_by-update a i clock b r at [] h = omega arith
held_by-update a i clock b r at (row ∷ rows) h =
    ground (arith, held_by-update a i clock b r at rows)

any_same-update :
    (clock : ℕ) (b : Text) (r : Refund) (at : ℕ) (x : RefundRow) (rows : List RefundRow)
    → any (same_refund x) (update_refunds clock b r at rows) ≡ any (same_refund x) rows
unfolding update_refunds
any_same-update clock b r at x [] = refl
any_same-update clock b r at x (row ∷ rows) = ground (arith, any_same-update clock b r at x rows)

pub are_distinct-update :
    (clock : ℕ) (b : Text) (r : Refund) (at : ℕ) (rows : List RefundRow)
    → are_distinct (update_refunds clock b r at rows) ≡ are_distinct rows
unfolding are_distinct update_refunds
are_distinct-update clock b r at [] = refl
are_distinct-update clock b r at (row ∷ rows) =
    ground (arith, are_distinct-update clock b r at rows, any_same-update clock b r at row rows)

any_same-append :
    (x y : RefundRow) (rows : List RefundRow)
    → any (same_refund x) (rows ++ y ∷ []) ≡ any (same_refund x) rows || same_refund x y
any_same-append x y [] = ground arith
any_same-append x y (row ∷ rows) = ground (arith, any_same-append x y rows)

pub are_distinct-append :
    (y : RefundRow) (rows : List RefundRow)
    → are_distinct rows ≡ true
    → any (same_refund y) rows ≡ false
    → are_distinct (rows ++ y ∷ []) ≡ true
unfolding are_distinct
are_distinct-append y [] d h = refl
are_distinct-append y (row ∷ rows) d h = ground (
  arith,
  are_distinct-append y rows,
  any_same-append row y rows,
  text_eq_iff y.account row.account,
  text_eq_iff y.refund.id row.refund.id,
  text_eq_iff row.account y.account,
  text_eq_iff row.refund.id y.refund.id,
)
