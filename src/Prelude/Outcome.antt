-- ===== src/Prelude/Outcome.antt =====
-- Go's `(value, error)`: a value, or the error that stands in its place.
use mathlib.Core.Path.{◌≡◌, refl}
use mathlib.Core.Logic.{◌⊎◌, inl, inr}
use mathlib.Core.Bool.{Bool, true, false}
use mathlib.Core.Option.{Option, none, some}
use mathlib.Core.List.{List, [], ◌∷◌}
use native.Mathlib.Omega.{arith}

pub data Result {ℓ κ} (E : Type ℓ) (A : Type κ) : Type (ℓ ⊔ κ) where
  ok : A → Result E A
  err : E → Result E A

infixl 5 ◌>>=◌ ◌>>◌
abbrev pub ◌>>=◌ {ℓ κ μ} :
    {E : Type ℓ} {A : Type κ} {B : Type μ} → Result E A → (A → Result E B) → Result E B
err problem >>= next = err problem
ok value >>= next = next value

-- `if err := check; err != nil { return err }`, with what follows it.
abbrev pub ◌>>◌ {ℓ κ μ} :
    {E : Type ℓ} {A : Type κ} {B : Type μ} → Result E A → Result E B → Result E B
checked >> rest = checked >>= λ _. rest

-- A returned error wrapped by the caller.
abbrev pub map_err {ℓ κ μ} :
    {E : Type ℓ} {F : Type κ} {A : Type μ} → (E → F) → Result E A → Result F A
map_err f (ok a) = ok a
map_err f (err e) = err (f e)

abbrev pub IsOk {ℓ κ} : {E : Type ℓ} {A : Type κ} → Result E A → Type (ℓ ⊔ κ)
IsOk {A} r = (a : A) × (r ≡ ok a)

pub >>=-eq-ok {ℓ κ μ} :
    {E : Type ℓ} {A : Type κ} {B : Type μ} (first : Result E A) (next : A → Result E B) {b : B}
    → (first >>= next) ≡ ok b
    → (a : A) × (first ≡ ok a) × (next a ≡ ok b)
>>=-eq-ok (err problem) next h = cc
>>=-eq-ok (ok value) next h = (value, refl, h)

abbrev pub is_some {ℓ} : {A : Type ℓ} → Option A → Bool
is_some none = false
is_some (some a) = true

-- A pointer's value, and what stands for a nil one.
abbrev pub get_or {ℓ} : {A : Type ℓ} → Option A → A → A
get_or none d = d
get_or (some a) d = a

pub Result-cases {ℓ κ} :
    {E : Type ℓ} {A : Type κ} (r : Result E A) → ((a : A) × (r ≡ ok a)) ⊎ ((e : E) × (r ≡ err e))
Result-cases (ok a) = inl (a, refl)
Result-cases (err e) = inr (e, refl)

-- A function that may fail, over a list, up to the first that does.
abbrev pub map_ok {ℓ κ μ} :
    {E : Type ℓ} {A : Type κ} {B : Type μ} → (A → Result E B) → List A → Result E (List B)
map_ok f [] = ok []
map_ok f (x ∷ xs) = f x >>= λ y. map_ok f xs >>= λ ys. ok (y ∷ ys)

-- Every element has `P`; it computes to a tuple.
abbrev pub All {ℓ κ} : {A : Type ℓ} → (A → Type κ) → List A → Type κ
All P [] = Unit
All P (x ∷ xs) = P x × All P xs

pub map_ok-All {ℓ κ μ ν ξ} :
    {E : Type ℓ} {A : Type κ} {B : Type μ} (f : A → Result E B) (P : A → Type ν) (Q : B → Type ξ)
    → ((x : A) (y : B) → f x ≡ ok y → P x → Q y)
    → (xs : List A) (ys : List B) → map_ok f xs ≡ ok ys
    → All P xs
    → All Q ys
map_ok-All f P Q go [] [] h k = tt
map_ok-All f P Q go [] (y ∷ ys) h k = absurd (ground arith)
map_ok-All f P Q go (x ∷ xs) ys h k =
    let (y, first, next) = >>=-eq-ok (f x) (λ y. map_ok f xs >>= λ zs. ok (y ∷ zs)) h in
    let (zs, rest, last) = >>=-eq-ok (map_ok f xs) (λ zs. ok (y ∷ zs)) next in
    let e : ys ≡ y ∷ zs = ground (arith, last) in
    rw e (go x y first k.0, map_ok-All f P Q go xs zs rest k.1)
