-- ===== src/Payment/Aggregate/Acceptance.antt =====
-- Which requests `build` accepts, in terms of what they hold.
use sucopay.Prelude.{ℕ, ◌<◌, ◌≤◌, ◌≡◌, ◌↔◌, true, false, length, all, ok, arith, IsOk}
use sucopay.Text.{Text}
use sucopay.Text.Invisible.{has}
use sucopay.Text.Hex.Shape.{is_lower_hex, hex_of_length-32}
use sucopay.Payment.Money
use sucopay.Payment.Status.{Status}
use sucopay.Payment.Metadata.Accepted.{fits, are_apart, metadata_problems-eq-nil}
use sucopay.Payment.Aggregate.{Request, parse_id, parse_address, build}
use sucopay.Payment.Aggregate.Opening.{build-IsOpenable}

-- An identifier of 32 lowercase hexadecimal digits, an amount of more than nothing, a destination of 1
-- to 128 bytes, and metadata of at most twenty entries, each with a key of 1 to 64 bytes and a value of
-- at most 512; and in the destination and the metadata every character shows.
pub record IsAcceptable (id : Text) (r : Request) : Type 0 where
  pub id_long : length id ≡ 32
  pub id_digits : all is_lower_hex id ≡ true
  pub amount_given : Money.is_set r.amount ≡ true
  pub amount_positive : 0 < Money.amount_of r.amount
  pub destination_given : 0 < length r.destination
  pub destination_short : length r.destination ≤ 128
  pub destination_shows : has r.destination ≡ false
  pub metadata_few : length r.metadata ≤ 20
  pub metadata_fits : all (λ (e : Text × Text). fits e.0 e.1) r.metadata ≡ true

parse_id_iff : (s : Text) → (parse_id s ≡ ok s) ↔ ((length s ≡ 32) × (all is_lower_hex s ≡ true))
unfolding parse_id
parse_id_iff s = ground (arith, hex_of_length-32 s)

parse_address_iff :
    (s : Text) → (parse_address s ≡ ok s) ↔ ((0 < length s) × (length s ≤ 128) × (has s ≡ false))
unfolding parse_address
parse_address_iff s = ground arith

-- `build` accepts a request, whose metadata has different keys, exactly if its parts are acceptable and
-- its deadline lies after the moment that it is measured from.
pub build_iff :
    (id : Text) (r : Request) (s : Status) (created_at d : ℕ)
    → are_apart r.metadata ≡ true
    → IsOk (build id r s created_at d) ↔ (IsAcceptable id r × (d < r.expires_at))
build_iff id r s created_at d apart =
    let whole = build-IsOpenable id r s created_at d in
    let of_id = parse_id_iff id in
    let of_address = parse_address_iff r.destination in
    let of_metadata = metadata_problems-eq-nil r.metadata apart in
    (
      λ o.
          let (good, timely) = whole.0 o in
          let (long, digits) = of_id.0 good.id_shaped in
          let (given, short, shows) = of_address.0 good.destination_shaped in
          let (few, fit) = of_metadata.0 good.metadata_kept in
          (
            record {
              id_long = long;
              id_digits = digits;
              amount_given = good.amount_given;
              amount_positive = good.amount_positive;
              destination_given = given;
              destination_short = short;
              destination_shows = shows;
              metadata_few = few;
              metadata_fits = fit;
            },
            timely,
          ),
      λ (a, timely). whole.1 (
        record {
          id_shaped = of_id.1 (a.id_long, a.id_digits);
          amount_given = a.amount_given;
          amount_positive = a.amount_positive;
          destination_shaped =
              of_address.1 (a.destination_given, a.destination_short, a.destination_shows);
          metadata_kept = of_metadata.1 (a.metadata_few, a.metadata_fits);
        },
        timely,
      ),
    )
