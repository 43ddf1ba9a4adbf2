-- ===== src/Finality/Worker/Stages.antt =====
-- What every transaction of a sweep keeps, the sweep keeps.
use sucopay.Prelude.{
  ◌≡◌, refl, inl, inr, List, [], ◌∷◌, All, Result, ok, err, Result-cases, Option-cases,
}
use sucopay.Payment.Store.{Database, StoreError}
use sucopay.Finality.Worker.Sweep.{Swept, each_one, stage, and_then}

-- One transaction after another keeps what each of them keeps.
each_one-keeps {ℓ} :
    {A : Type ℓ} (P : Database → Type 0) (Q : A → Type 0)
    (f : A → Database → Result StoreError Database)
    → ((x : A) (d d' : Database) → Q x → f x d ≡ ok d' → P d → P d')
    → (xs : List A) (d : Database) → All Q xs
    → P d
    → P (each_one f xs d).database
unfolding each_one
each_one-keeps P Q f step [] d q h = h
each_one-keeps P Q f step (x ∷ xs) d q h = elim (Result-cases (f x d)) [
  | inr (e, n) ↦ rw (n, each_one) h
  | inl (d', n) ↦ rw (n, each_one) (each_one-keeps P Q f step xs d' q.1 (step x d d' q.0 n h))
]

pub stage-keeps {ℓ} :
    {A : Type ℓ} (P : Database → Type 0) (Q : A → Type 0)
    (f : A → Database → Result StoreError Database) (read : Result StoreError (List A))
    (d : Database)
    → ((x : A) (d d' : Database) → Q x → f x d ≡ ok d' → P d → P d')
    → ((xs : List A) → read ≡ ok xs → All Q xs)
    → P d
    → P (stage read f d).database
unfolding stage
stage-keeps P Q f (err e) d step are h = h
stage-keeps P Q f (ok xs) d step are h = each_one-keeps P Q f step xs d (are xs refl) h

pub and_then-keeps :
    (P : Database → Type 0) (s : Swept) (next : Database → Swept)
    → ((d : Database) → P d → P (next d).database)
    → P s.database
    → P (and_then s next).database
unfolding and_then
and_then-keeps P s next go h = elim (Option-cases s.failed) [
  | inl n ↦ rw (n, and_then) (go s.database h)
  | inr (e, n) ↦ rw (n, and_then) h
]
