-- ===== src/Payment/Evidence.antt =====
-- internal/payment/evidence.go: what a transfer on a chain is worth against an attempt at a payment,
-- and against a refund.
pub mod Rules
pub mod Pays
pub mod RefundRules
use sucopay.Prelude.{
  ℕ, Bool, true, false, not, ◌&&◌, ◌||◌, List, [], ◌∷◌, Option, none, some, ltb, ◌==◌,
  if◌then◌else◌, length, Result, ok, err, ◌>>=◌, ◌>>◌,
}
use sucopay.Text.{Text, text_eq, codes}
use sucopay.Text.Invisible.{has}
use sucopay.Payment.Money.{Money, MoneyError, Sign, less, equal, greater, cmp}
use sucopay.Payment.Units.{parse_money}
use sucopay.Payment.Aggregate.{Payment}
use sucopay.Payment.Lifecycle.{can_receive}
use sucopay.Payment.Attempt.{Attempt}
use sucopay.Payment.Refund.{Refund}

-- `Transfer`; the zero `BlockTime` is 0
pub record Transfer : Type 0 where
  pub scheme : Text
  pub asset : Text
  pub key : Text
  pub authorizer : Text
  pub from : Text
  pub to : Text
  pub value : Text
  pub tx : Text
  pub position : ℕ
  pub block_height : ℕ
  pub block_hash : Text
  pub block_time : ℕ

-- `Reason`
pub data Reason : Type 0 where
  matched wrong_asset wrong_to short late vanished wrong_from over : Reason

-- Whether an amount that was read is less than `asked`, or was not read at all.
falls_short : Result MoneyError Money → Money → Bool
falls_short (err e) asked = true
falls_short (ok paid) asked = elim (cmp paid asked) [
  | err e ↦ true
  | ok s ↦ elim s [ less ↦ true | _ ↦ false ]
]

judge_pair : Transfer → Attempt → Payment → Option Reason
unfolding falls_short can_receive
judge_pair t a p =
    if not (text_eq t.key a.key)
      || (not (text_eq t.scheme a.scheme) || not (text_eq a.network p.amount.asset.network))
    then none
    else if not (text_eq t.asset p.amount.asset.reference)
    then some wrong_asset
    else if not (text_eq t.to p.destination)
    then some wrong_to
    else if falls_short (parse_money p.amount.asset t.value) p.amount
    then some short
    else if not (ltb t.block_time a.valid_before)
    then some late
    else if not (can_receive p)
    then some late
    else some matched

-- `Judge`; the false that it returns is `none`
unfoldable pub judge : Transfer → Option Attempt → Option Payment → Option Reason
unfolding judge_pair
judge t none p = none
judge t (some a) none = none
judge t (some a) (some p) = judge_pair t a p

-- What a comparison with the refund's amount says of a transfer, if anything.
against : Result MoneyError Money → Money → Option Reason
against (err e) asked = some short
against (ok sent) asked = elim (cmp sent asked) [
  | err e ↦ some short
  | ok s ↦ elim s [ less ↦ some short | equal ↦ none | greater ↦ some over ]
]

by_deadline : ℕ → ℕ → Reason
by_deadline block_time expires_at = if not (ltb block_time expires_at) then late else matched

judge_refund_pair : Transfer → Refund → Payment → Option Reason
unfolding against by_deadline
judge_refund_pair t r p =
    if not (text_eq t.key r.key)
      || (not (text_eq t.scheme r.scheme) || not (text_eq r.network p.amount.asset.network))
    then none
    else if not (text_eq t.asset p.amount.asset.reference)
    then some wrong_asset
    else if not (text_eq t.to r.destination)
    then some wrong_to
    else if not (text_eq t.from p.destination)
    then some wrong_from
    else elim (against (parse_money p.amount.asset t.value) r.amount) [
      | some reason ↦ some reason
      | none ↦ some (by_deadline t.block_time r.expires_at)
    ]

-- `JudgeRefund`
unfoldable pub judge_refund : Transfer → Option Refund → Option Payment → Option Reason
unfolding judge_refund_pair
judge_refund t none p = none
judge_refund t (some r) none = none
judge_refund t (some r) (some p) = judge_refund_pair t r p

-- `MaxTransferField`
abbrev pub max_transfer_field : ℕ
max_transfer_field = 256

-- The errors of `screen`, with the name of the field.
pub data ScreenError : Type 0 where
  no_time : ScreenError
  field_long : Text → ℕ → ScreenError
  field_invisible : Text → ScreenError

pub fields_of : Transfer → List (Text × Text)
fields_of t =
    (codes "asset", t.asset)
    ∷ (codes "key", t.key)
    ∷ (codes "authorizer", t.authorizer)
    ∷ (codes "from", t.from)
    ∷ (codes "to", t.to)
    ∷ (codes "value", t.value)
    ∷ (codes "tx", t.tx)
    ∷ (codes "block hash", t.block_hash)
    ∷ (codes "scheme", t.scheme)
    ∷ []

pub screen_fields : List (Text × Text) → Result ScreenError (Unit {0})
screen_fields [] = ok tt
screen_fields ((name, value) ∷ rest) =
    if ltb max_transfer_field (length value)
    then err (field_long name (length value))
    else if has value
    then err (field_invisible name)
    else screen_fields rest

-- `screen`
unfoldable pub screen : Transfer → Result ScreenError (Unit {0})
unfolding fields_of screen_fields
screen t = if t.block_time == 0 then err no_time else screen_fields (fields_of t)
