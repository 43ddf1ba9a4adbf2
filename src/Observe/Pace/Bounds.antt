-- ===== src/Observe/Pace/Bounds.antt =====
-- The pace of an observer stays within its configuration.
use sucopay.Prelude.{
  ◌*◌, ◌≤◌, ◌<◌, min, max, Bool, true, false, List, [], ◌∷◌, Option, none, some, arith,
}
use sucopay.Observe.Chain.{ChainError, rate_limited, too_wide, no_final, other}
use sucopay.Observe.Pace.{
  Pace, Limits, after, after_good, after_error, max_interval, min_width, second,
}

-- A pace within the limits of a network: a width from the smallest up to the configured one, and an
-- interval between the configured one and the longest.
record IsPaced (n : Limits) (p : Pace) : Type 0 where
  narrow : p.width ≤ n.width
  wide : min n.width min_width ≤ p.width
  slow : min n.poll max_interval ≤ p.interval
  quick : p.interval ≤ max n.poll max_interval
  counted : p.passed < 100

after_good-IsPaced : (n : Limits) (p : Pace) → IsPaced n p → IsPaced n (after_good n p)
unfolding after_good
after_good-IsPaced n p h = record {
  narrow = ground (arith, h.narrow);
  wide = ground (arith, h.narrow, h.wide);
  slow = ground arith;
  quick = ground (arith, h.quick);
  counted = ground (arith, h.counted);
}

after_error-IsPaced :
    (n : Limits) (e : ChainError) (p : Pace) → IsPaced n p → IsPaced n (after_error n e p)
unfolding after_error
after_error-IsPaced n (rate_limited wait) p h = record {
  narrow = ground (arith, h.narrow);
  wide = ground (arith, h.wide);
  slow = ground (arith, h.slow);
  quick = ground (arith, h.quick);
  counted = ground arith;
}
after_error-IsPaced n too_wide p h = record {
  narrow = ground (arith, h.narrow);
  wide = ground (arith, h.wide);
  slow = ground (arith, h.slow);
  quick = ground (arith, h.quick);
  counted = ground arith;
}
after_error-IsPaced n no_final p h = ground (arith, h)
after_error-IsPaced n other p h = ground (arith, h)

-- What an observer starts with, and then comes to after some rounds.
unfoldable pub paced : Limits → List (Bool × Option ChainError) → Pace
unfolding after
paced n [] = record { width = n.width; interval = n.poll; passed = 0 }
paced n ((behind, result) ∷ rounds) = after n behind result (paced n rounds)

paced-IsPaced : (n : Limits) (rounds : List (Bool × Option ChainError)) → IsPaced n (paced n rounds)
unfolding paced after
paced-IsPaced n [] = record {
  narrow = omega arith;
  wide = omega arith;
  slow = omega arith;
  quick = omega arith;
  counted = omega arith;
}
paced-IsPaced n ((true, result) ∷ rounds) = paced-IsPaced n rounds
paced-IsPaced n ((false, none) ∷ rounds) =
    after_good-IsPaced n (paced n rounds) (paced-IsPaced n rounds)
paced-IsPaced n ((false, some e) ∷ rounds) =
    after_error-IsPaced n e (paced n rounds) (paced-IsPaced n rounds)

-- Whatever the rounds of an observer come to, it reads at most the configured number of blocks in a
-- round, and no fewer than ten of them where that many are configured; and it waits no less than the
-- smaller, and no more than the larger, of the configured interval and of three hundred seconds.
pub paced-bounds :
    (n : Limits) (rounds : List (Bool × Option ChainError))
    → let p = paced n rounds in
      (p.width ≤ n.width)
      × (min n.width 10 ≤ p.width)
      × (min n.poll (300 * second) ≤ p.interval)
      × (p.interval ≤ max n.poll (300 * second))
paced-bounds n rounds = let h = paced-IsPaced n rounds in (h.narrow, h.wide, h.slow, h.quick)
