-- ===== src/Scenarios/Spans.antt =====
-- Rounds of an observer over a chain with one transfer.
use sucopay.Prelude.{
  List, ◌++◌, if◌then◌else◌, ◌==◌, ℕ, ◌+◌, ◌*◌, ◌≡◌, ◌≤◌, refl, true, false, [], ◌∷◌, All, any, all,
  min, max, is_some, none, some, Result, ok, err, arith,
}
use sucopay.Text.{Text, text_eq, text_leb, codes}
use sucopay.Text.Hex.{hex_of_length}
use sucopay.Text.Invisible.{has}
use sucopay.Payment.Aggregate.{build, restore, parse_id, parse_address}
use sucopay.Payment.Metadata.{metadata_problems}
use sucopay.Payment.Attempt.{restore_attempt}
use sucopay.Payment.Store.Payments.{created_columns}
use sucopay.Payment.Units.{parse_money}
use sucopay.Text.Decimal.{set_string}
use sucopay.Payment.Money.{cmp}
use sucopay.Observe.Cursor.{Position, get}
use sucopay.Observe.Chain.{Block, Chain, Consumed, ChainTransfer, too_wide}
use sucopay.Observe.Pace.{Limits, second}
use sucopay.Observe.Pace.Bounds.{paced, paced-bounds}
use sucopay.Observe.Pace.CatchUp.{heights}
use sucopay.Observe.Tick.CatchUp.{only, none_more, behind, rounds-heights}
use sucopay.Observe.Reading.{Sight, Sighted, ObserveError, transactions, seen}
use sucopay.Observe.Reading.Receipts.{are_distinct, spends, spent_in, transactions_lem}
use sucopay.Observe.Reading.Judged.{IsJudged, IsJudgedRefund, seen-IsJudged}
use sucopay.Observe.Tick.{Site, Observer, observing, Tables, settled, tick}
use sucopay.Observe.Tick.Forward.{Answers, tick-forward}
use sucopay.Scenarios.Samples.{transfer, noon}
use sucopay.Scenarios.Sightings.{polygon, watched, numeric, told}

abbrev limits : Limits
limits = record { poll = second; width = 50 }

paced-bounds_example :
    let p = paced limits ((false, some too_wide) ∷ (false, none) ∷ []) in
    (p.width ≤ 50)
    × (min 50 10 ≤ p.width)
    × (min second (300 * second) ≤ p.interval)
    × (p.interval ≤ max second (300 * second))
paced-bounds_example = paced-bounds limits ((false, some too_wide) ∷ (false, none) ∷ [])

abbrev block_at : ℕ → Block
block_at h = record {
  height = h;
  hash = codes "0xblock";
  parent = codes "0xparent";
  time = noon + 1;
}

abbrev spending : Consumed
spending = record { key = transfer.key; authorizer = transfer.authorizer; tx = transfer.tx }

abbrev carried : ChainTransfer
carried = record {
  scheme = transfer.scheme;
  asset = transfer.asset;
  key = transfer.key;
  authorizer = transfer.authorizer;
  from = transfer.from;
  to = transfer.to;
  value = transfer.value;
  tx = transfer.tx;
  position = 0;
  block = block_at 7;
}

abbrev the_chain : Chain
the_chain = record {
  identity = ok (codes "137");
  head = ok (record { latest = block_at 9; final = block_at 9 });
  block = λ h. ok (block_at h);
  keys = λ first last references. ok (record { consumed = spending ∷ []; changed = [] });
  receipt = λ tx. ok (carried ∷ []);
  implementation = λ asset. ok [];
}

abbrev sight : Sight
sight = record {
  network = polygon;
  chain = the_chain;
  references = transfer.asset ∷ [];
  kept = λ at. ok tt;
}

abbrev site : Site
site = record {
  sight = sight;
  want = [];
  width = 2;
  now = noon + 2;
  clock = noon + 2;
  numeric = numeric;
  told = told;
}

abbrev from : Position
from = record { height = 5; hash = codes "0xblock"; time = noon }

abbrev tables : Tables
tables = record {
  database = watched;
  cursors = record { network = polygon; position = from; updated_at = noon } ∷ [];
}

abbrev observer : Observer
observer = record { word = observing; identified = noon; succeeded = noon }

honest : Answers site
honest h b e = ground arith

at_five : get polygon tables.cursors ≡ some from
unfolding get text_eq
at_five = refl

tick-forward_example :
    let r = tick site observer tables in
    (to : Position) × (get polygon r.tables.cursors ≡ some to)
    × (from.height ≤ to.height)
    × (to.height ≤ from.height + 2)
    × (is_some r.failed ≡ true → r.tables ≡ tables)
tick-forward_example = tick-forward site observer tables from honest at_five

-- Two rounds, from the fifth block to the ninth: the first sees the transfer, and the last two blocks
-- spend no key.
abbrev calm : Site
calm = record site {
  width = 3;
  sight = record sight {
    chain = record the_chain {
      keys = λ first last references.
          ok (record { consumed = if first == 6 then spending ∷ [] else []; changed = [] });
    };
  };
}

calm_honest : Answers calm
calm_honest h b e = ground arith

abbrev at_height : ℕ → Position
at_height h = record { height = h; hash = codes "0xblock"; time = noon + 1 }

abbrev left_by : Result ObserveError (Tables × List (Text × Text)) → Tables × List (Text × Text)
left_by (ok r) = r
left_by (err e) = (tables, [])

abbrev once : Tables × List (Text × Text)
once = left_by (settled (only 6 8 calm) from (block_at 9) tables)

abbrev twice : Tables × List (Text × Text)
twice = left_by (settled (only 9 9 calm) (at_height 8) (block_at 9) once.0)

ran_once : settled (only 6 8 calm) from (block_at 9) tables ≡ ok once
unfolding settled only text_eq created_columns restore_attempt hex_of_length parse_id restore build
    parse_address has metadata_problems text_leb parse_money set_string cmp
ran_once = refl

at_eight : get polygon once.0.cursors ≡ some (at_height 8)
unfolding get settled only text_eq created_columns restore_attempt hex_of_length parse_id restore
    build parse_address has metadata_problems text_leb parse_money set_string cmp
at_eight = refl

ran_twice : settled (only 9 9 calm) (at_height 8) (block_at 9) once.0 ≡ ok twice
unfolding settled only text_eq created_columns restore_attempt hex_of_length parse_id restore build
    parse_address has metadata_problems text_leb parse_money set_string cmp
ran_twice = refl

at_nine : get polygon twice.0.cursors ≡ some (at_height 9)
unfolding get settled only text_eq created_columns restore_attempt hex_of_length parse_id restore
    build parse_address has metadata_problems text_leb parse_money set_string cmp
at_nine = refl

rounds-heights_example :
    (heights 6 3 ++ (heights 9 1 ++ []) ≡ heights 6 4)
    × ((at_height 9).height ≡ (block_at 9).height)
rounds-heights_example =
    rounds-heights calm (block_at 9) calm_honest at_five (omega arith) (omega arith) (
      behind 6 8 once.1 (omega arith) ran_once at_eight
        (behind 9 9 twice.1 (omega arith) ran_twice at_nine none_more))

transactions_lem_example :
    let txs = transactions (λ key. true) (spending ∷ spending ∷ []) in
    (are_distinct txs ≡ true)
    × (all (λ tx. any (spends (λ key. true) tx) (spending ∷ spending ∷ [])) txs ≡ true)
    × ((key : Text)
        → true ≡ true
        → any (λ (c : Consumed). text_eq c.key key) (spending ∷ spending ∷ []) ≡ true
        → any (λ tx. any (spent_in key tx) (spending ∷ spending ∷ [])) txs ≡ true)
transactions_lem_example = transactions_lem (λ key. true) (spending ∷ spending ∷ [])

abbrev sighted_in : Result ObserveError Sighted → Sighted
sighted_in (ok s) = s
sighted_in (err e) = record { seen = []; sent = []; read = [] }

abbrev found : Sighted
found = sighted_in (seen sight true 6 7 [] watched)

did_see : seen sight true 6 7 [] watched ≡ ok found
unfolding seen text_eq created_columns restore_attempt hex_of_length parse_id restore build
    parse_address has metadata_problems text_leb parse_money set_string cmp
did_see = refl

seen-IsJudged_example : All IsJudged found.seen × All IsJudgedRefund found.sent
seen-IsJudged_example = seen-IsJudged sight true 6 7 [] watched found did_see
