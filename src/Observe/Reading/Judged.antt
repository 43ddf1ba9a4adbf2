-- ===== src/Observe/Reading/Judged.antt =====
-- What a round has seen is what the rules made of it.
use sucopay.Prelude.{
  ℕ, ◌≡◌, ◌⊎◌, inl, inr, Bool, ◌+◌, List, [], ◌∷◌, ◌++◌, All, some, ok, arith, Result-cases,
  Option-cases, Bool-cases, is_empty,
}
use sucopay.Text.{Text}
use sucopay.Payment.Evidence.{Transfer, Reason, judge, judge_refund}
use sucopay.Payment.Store.{Database}
use sucopay.Payment.Store.Observations.{Hit, Seen, RefundHit, SeenRefund}
use sucopay.Observe.Chain.{Chain, ChainTransfer}
use sucopay.Observe.Reading.{
  Sight, Sighted, Held, hit_for, refund_for, judged, transferred, behind, add_sighted, each_carried,
  each_receipt, holders, is_held, transactions, seen, at_scan, at_receipt,
}

abbrev pub IsJudged : Seen → Type 0
IsJudged one = judge one.transfer (some one.hit.attempt) (some one.hit.payment) ≡ some one.reason

abbrev pub IsJudgedRefund : SeenRefund → Type 0
IsJudgedRefund one =
    judge_refund one.transfer (some one.hit.refund) (some one.hit.payment) ≡ some one.reason

abbrev AreJudged : Sighted → Type 0
AreJudged s = All IsJudged s.seen × All IsJudgedRefund s.sent

All-snoc {ℓ κ} :
    {A : Type ℓ} (P : A → Type κ) (xs : List A) (x : A) → All P xs → P x → All P (xs ++ x ∷ [])
All-snoc P [] x h p = (p, tt)
All-snoc P (y ∷ ys) x h p = (h.0, All-snoc P ys x h.1 p)

judged-hit :
    (h : Held) (t : Transfer) (hit : Hit) (r : Reason)
    → judged h t ≡ some (inl (hit, r))
    → judge t (some hit.attempt) (some hit.payment) ≡ some r
unfolding judged
judged-hit h t hit r k = elim (Option-cases (hit_for t.key h.against)) [
  | inl n ↦ elim (Option-cases (refund_for t.key h.back)) [
    | inl m ↦ absurd (ground (arith, n, m))
    | inr (x, m) ↦ elim (Option-cases (judge_refund t (some x.refund) (some x.payment))) [
      | inl j ↦ absurd (ground (arith, n, m, j))
      | inr (y, j) ↦ absurd (ground (arith, n, m, j))
    ]
  ]
  | inr (x, n) ↦ elim (Option-cases (judge t (some x.attempt) (some x.payment))) [
    | inl j ↦ absurd (ground (arith, n, j))
    | inr (y, j) ↦ ground (arith, n, j)
  ]
]

judged-refund :
    (h : Held) (t : Transfer) (hit : RefundHit) (r : Reason)
    → judged h t ≡ some (inr (hit, r))
    → judge_refund t (some hit.refund) (some hit.payment) ≡ some r
unfolding judged
judged-refund h t hit r k = elim (Option-cases (hit_for t.key h.against)) [
  | inl n ↦ elim (Option-cases (refund_for t.key h.back)) [
    | inl m ↦ absurd (ground (arith, n, m))
    | inr (x, m) ↦ elim (Option-cases (judge_refund t (some x.refund) (some x.payment))) [
      | inl j ↦ absurd (ground (arith, n, m, j))
      | inr (y, j) ↦ ground (arith, n, m, j)
    ]
  ]
  | inr (x, n) ↦ elim (Option-cases (judge t (some x.attempt) (some x.payment))) [
    | inl j ↦ absurd (ground (arith, n, j))
    | inr (y, j) ↦ absurd (ground (arith, n, j))
  ]
]

add_sighted-AreJudged :
    (h : Held) (t : Transfer) (what : (Hit × Reason) ⊎ (RefundHit × Reason)) (code : Text)
    (s : Sighted)
    → judged h t ≡ some what
    → AreJudged s
    → AreJudged (add_sighted t what code s)
unfolding add_sighted
add_sighted-AreJudged h t (inl (hit, r)) code s k a = (
  All-snoc IsJudged s.seen (record { hit = hit; transfer = t; reason = r; implementation = code })
      a.0 (judged-hit h t hit r k),
  a.1,
)
add_sighted-AreJudged h t (inr (hit, r)) code s k a = (
  a.0,
  All-snoc IsJudgedRefund s.sent
      (record { hit = hit; transfer = t; reason = r; implementation = code }) a.1
      (judged-refund h t hit r k),
)

each_carried-AreJudged :
    (c : Chain) (h : Held) (ts : List ChainTransfer) (s s' : Sighted)
    → each_carried c h ts s ≡ ok s'
    → AreJudged s
    → AreJudged s'
unfolding each_carried
each_carried-AreJudged c h [] s s' k a = let e : s' ≡ s = ground arith in rw e a
each_carried-AreJudged c h (t ∷ ts) s s' k a = elim (Option-cases (judged h (transferred t))) [
  | inl n ↦ each_carried-AreJudged c h ts s s' (ground (arith, n)) a
  | inr (what, n) ↦ elim (Result-cases (behind c t.asset s.read)) [
    | inr (e, m) ↦ absurd (ground (arith, n, m))
    | inl ((code, read), m) ↦
        let s₁ : Sighted = record s { read = read } in
        each_carried-AreJudged c h ts (add_sighted (transferred t) what code s₁) s'
          (ground (arith, n, m)) (add_sighted-AreJudged h (transferred t) what code s₁ n a)
  ]
]

each_receipt-AreJudged :
    (e : Sight) (h : Held) (final : Bool) (i : ℕ) (txs : List Text) (s s' : Sighted)
    → each_receipt e h final i txs s ≡ ok s'
    → AreJudged s
    → AreJudged s'
unfolding each_receipt
each_receipt-AreJudged e h final i [] s s' k a = let same : s' ≡ s = ground arith in rw same a
each_receipt-AreJudged e h final i (tx ∷ txs) s s' k a =
    elim (Result-cases (e.kept (at_receipt final i))) [
      | inr (x, n) ↦ absurd (ground (arith, n))
      | inl (u, n) ↦ elim (Result-cases (e.chain.receipt tx)) [
        | inr (x, m) ↦ absurd (ground (arith, n, m))
        | inl (ts, m) ↦ elim (Result-cases (each_carried e.chain h ts s)) [
          | inr (x, c) ↦ absurd (ground (arith, n, m, c))
          | inl (s₁, c) ↦
              each_receipt-AreJudged e h final (i + 1) txs s₁ s' (ground (arith, n, m, c))
                (each_carried-AreJudged e.chain h ts s s₁ c a)
        ]
      ]
    ]

-- Every transfer that a round hands on to be recorded carries the reason that the rules give for it
-- against the very attempt and payment, or refund and payment, that it is recorded with.
pub seen-IsJudged :
    (e : Sight) (final : Bool) (first last : ℕ) (read : List (Text × Text)) (d : Database)
    (s : Sighted)
    → seen e final first last read d ≡ ok s
    → All IsJudged s.seen × All IsJudgedRefund s.sent
unfolding seen
seen-IsJudged e final first last read d s k = elim (Result-cases (e.kept (at_scan final))) [
  | inr (x, n) ↦ absurd (ground (arith, n))
  | inl (u, n) ↦ elim (Result-cases (e.chain.keys first last e.references)) [
    | inr (x, m) ↦ absurd (ground (arith, n, m))
    | inl (scan, m) ↦ elim (Bool-cases (is_empty scan.consumed)) [
      | inl nothing ↦
          let same : s ≡ record { seen = []; sent = []; read = read } =
            ground (arith, n, m, nothing) in
          rw same (tt, tt)
      | inr some_spent ↦ elim (Result-cases (holders e scan.consumed d)) [
        | inr (x, o) ↦ absurd (ground (arith, n, m, some_spent, o))
        | inl (h, o) ↦
            each_receipt-AreJudged e h final 0 (transactions (is_held h) scan.consumed)
              (record { seen = []; sent = []; read = read }) s (ground (arith, n, m, some_spent, o))
              (tt, tt)
      ]
    ]
  ]
]
