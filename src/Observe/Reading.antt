-- ===== src/Observe/Reading.antt =====
-- internal/observe/observer.go: what a round reads of a span of blocks. Wherever a round asks whether
-- it still holds its lease, `kept` is what `keep` answers there.
pub mod Receipts
pub mod Judged
use sucopay.Prelude.{
  ℕ, ◌+◌, Bool, true, false, not, ◌&&◌, ◌||◌, List, [], ◌∷◌, ◌++◌, map, keep, any, Option, none,
  some, is_some, is_empty, if◌then◌else◌, Result, ok, err, ◌>>=◌, ◌>>◌, map_err, ◌⊎◌, inl, inr,
}
use sucopay.Text.{Text, text_eq}
use sucopay.Payment.Evidence.{Transfer, Reason, judge, judge_refund}
use sucopay.Payment.Store.{Database, StoreError}
use sucopay.Payment.Store.Observations.{Hit, Seen, RefundHit, SeenRefund}
use sucopay.Payment.Store.Queries.{consumed, refunds_consumed}
use sucopay.Observe.Cursor.{CursorError}
use sucopay.Observe.Chain.{Chain, ChainError, ChainTransfer, Consumed}

-- The errors of a round; `lost` is errLost.
pub data ObserveError : Type 0 where
  chain : ChainError → ObserveError
  store : StoreError → ObserveError
  cursor : CursorError → ObserveError
  lease lost no_width : ObserveError
  mismatch : Text → Text → ObserveError

-- The places at which a round asks about its lease: the spans that it reads are the final one, of
-- `settled`, and the one ahead of it.
pub data Site : Type 0 where
  at_head at_block at_last : Site
  at_scan : Bool → Site
  at_receipt : Bool → ℕ → Site

-- What a round reads with.
pub record Sight : Type 0 where
  pub network : Text
  pub chain : Chain
  pub references : List Text
  pub kept : Site → Result ObserveError (Unit {0})

-- `keys`, with those that were met
unfoldable pub keys_from : List Text → List Consumed → List Text
keys_from met [] = []
keys_from met (one ∷ rest) = elim (any (text_eq one.key) met) [
  | true ↦ keys_from met rest
  | false ↦ one.key ∷ keys_from (one.key ∷ met) rest
]

-- `keys`
unfoldable pub keys : List Consumed → List Text
unfolding keys_from
keys consumed = keys_from [] consumed

-- The maps from a key, in which the last that was put in counts.
unfoldable pub hit_for : Text → List Hit → Option Hit
hit_for key [] = none
hit_for key (h ∷ hits) = elim (hit_for key hits) [
  | some later ↦ some later
  | none ↦ if text_eq h.attempt.key key then some h else none
]

unfoldable pub refund_for : Text → List RefundHit → Option RefundHit
refund_for key [] = none
refund_for key (h ∷ hits) = elim (refund_for key hits) [
  | some later ↦ some later
  | none ↦ if text_eq h.refund.key key then some h else none
]

-- `against` and `back`
pub record Held : Type 0 where
  pub against : List Hit
  pub back : List RefundHit

-- A key that an attempt and a refund hold is nobody's.
unfoldable pub with_refunds : List RefundHit → Held → Held
unfolding hit_for
with_refunds [] h = h
with_refunds (r ∷ rs) h = with_refunds rs (
    if is_some (hit_for r.refund.key h.against)
    then record h {
      against = keep (λ (one : Hit). not (text_eq one.attempt.key r.refund.key)) h.against;
    }
    else record h { back = h.back ++ r ∷ [] })

-- Whether a key is one that something here waits for.
unfoldable pub is_held : Held → Text → Bool
unfolding hit_for refund_for
is_held h key = is_some (hit_for key h.against) || is_some (refund_for key h.back)

-- `transactions`, with the keys that were spent and the transactions that were met
unfoldable pub transactions_from : (Text → Bool) → List Text → List Text → List Consumed → List Text
transactions_from held spent met [] = []
transactions_from held spent met (one ∷ rest) =
    elim (not (held one.key) || any (text_eq one.key) spent) [
      | true ↦ transactions_from held spent met rest
      | false ↦ elim (any (text_eq one.tx) met) [
        | true ↦ transactions_from held (one.key ∷ spent) met rest
        | false ↦ one.tx ∷ transactions_from held (one.key ∷ spent) (one.tx ∷ met) rest
      ]
    ]

-- `transactions`
unfoldable pub transactions : (Text → Bool) → List Consumed → List Text
unfolding transactions_from
transactions held consumed = transactions_from held [] [] consumed

-- `transferred`
unfoldable pub transferred : ChainTransfer → Transfer
transferred t = record {
  scheme = t.scheme;
  asset = t.asset;
  key = t.key;
  authorizer = t.authorizer;
  from = t.from;
  to = t.to;
  value = t.value;
  tx = t.tx;
  position = t.position;
  block_height = t.block.height;
  block_hash = t.block.hash;
  block_time = t.block.time;
}

-- The code behind each asset that the round has read.
unfoldable pub remembered : Text → List (Text × Text) → Option Text
remembered asset [] = none
remembered asset ((name, code) ∷ rest) =
    let later = remembered asset rest in if text_eq name asset then some code else later

-- `behind`
unfoldable pub behind :
    Chain → Text → List (Text × Text) → Result ObserveError (Text × List (Text × Text))
unfolding remembered
behind c asset read = elim (remembered asset read) [
  | some code ↦ ok (code, read)
  | none ↦ map_err chain (c.implementation asset) >>= λ code. ok (code, (asset, code) ∷ read)
]

-- What a round has seen, and the code that it has read.
pub record Sighted : Type 0 where
  pub seen : List Seen
  pub sent : List SeenRefund
  pub read : List (Text × Text)

-- What a transfer is to those who hold its key, if it is anything.
unfoldable pub judged : Held → Transfer → Option ((Hit × Reason) ⊎ (RefundHit × Reason))
unfolding hit_for refund_for judge judge_refund
judged h t = elim (hit_for t.key h.against) [
  | some hit ↦ elim (judge t (some hit.attempt) (some hit.payment)) [
    | none ↦ none
    | some reason ↦ some (inl (hit, reason))
  ]
  | none ↦ elim (refund_for t.key h.back) [
    | none ↦ none
    | some hit ↦ elim (judge_refund t (some hit.refund) (some hit.payment)) [
      | none ↦ none
      | some reason ↦ some (inr (hit, reason))
    ]
  ]
]

unfoldable pub add_sighted :
    Transfer → (Hit × Reason) ⊎ (RefundHit × Reason) → Text → Sighted → Sighted
add_sighted t (inl (hit, reason)) code s = record s {
  seen = s.seen ++ record { hit = hit; transfer = t; reason = reason; implementation = code } ∷ [];
}
add_sighted t (inr (hit, reason)) code s = record s {
  sent = s.sent ++ record { hit = hit; transfer = t; reason = reason; implementation = code } ∷ [];
}

-- The transfers of a receipt.
unfoldable pub each_carried :
    Chain → Held → List ChainTransfer → Sighted → Result ObserveError Sighted
unfolding judged transferred behind add_sighted
each_carried c h [] s = ok s
each_carried c h (carried ∷ rest) s = elim (judged h (transferred carried)) [
  | none ↦ each_carried c h rest s
  | some what ↦ behind c carried.asset s.read >>= λ (code, read).
      each_carried c h rest (add_sighted (transferred carried) what code (record s { read = read }))
]

-- The receipts of the transactions, from the one of a place on.
unfoldable pub each_receipt :
    Sight → Held → Bool → ℕ → List Text → Sighted → Result ObserveError Sighted
unfolding each_carried
each_receipt e h final i [] s = ok s
each_receipt e h final i (tx ∷ txs) s =
    e.kept (at_receipt final i)
    >> (map_err chain (e.chain.receipt tx) >>= λ transfers.
        each_carried e.chain h transfers s >>= each_receipt e h final (i + 1) txs)

-- Who holds the keys that a span spent.
unfoldable pub holders : Sight → List Consumed → Database → Result ObserveError Held
unfolding keys consumed refunds_consumed with_refunds
holders e spent d = do
  hits ← map_err store (consumed e.network (keys spent) d)
  refunds ← map_err store (refunds_consumed e.network (keys spent) d)
  ok (with_refunds refunds (record { against = hits; back = [] }))

-- `seen`
unfoldable pub seen :
    Sight → Bool → ℕ → ℕ → List (Text × Text) → Database → Result ObserveError Sighted
unfolding holders is_held transactions each_receipt
seen e final first last read d = do
  e.kept (at_scan final)
  scan ← map_err chain (e.chain.keys first last e.references)
  if is_empty scan.consumed
      then ok (record { seen = []; sent = []; read = read })
      else holders e scan.consumed d >>= λ h.
          each_receipt e h final 0 (transactions (is_held h) scan.consumed)
            (record { seen = []; sent = []; read = read })
