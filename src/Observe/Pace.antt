-- ===== src/Observe/Pace.antt =====
-- internal/observe/observer.go: how much of a chain a round reads, and how long it waits for the next.
pub mod Bounds
pub mod CatchUp
use sucopay.Prelude.{
  ℕ, ◌+◌, ◌-◌, ◌*◌, ◌/◌, min, max, Bool, true, false, not, ◌&&◌, Option, none, some, ltb, leb, ◌==◌,
  if◌then◌else◌,
}
use sucopay.Observe.Chain.{ChainError, rate_limited, too_wide, no_final, other}

-- A second and a minute in nanoseconds, `RenewBelow`, `MaxInterval`, `RecoverAfter`, `Stale`,
-- `ReadImplementationEvery`, `HoldPausedFor`, `minWidth`
abbrev pub second : ℕ
second = 1_000_000_000

abbrev pub minute : ℕ
minute = 60 * second

abbrev pub max_interval : ℕ
max_interval = 300 * second

abbrev pub recover_after : ℕ
recover_after = 100

abbrev pub read_implementation_every : ℕ
read_implementation_every = minute

abbrev pub min_width : ℕ
min_width = 10

-- The fields of an observer that say how it is paced; a width is more than nothing.
pub record Pace : Type 0 where
  pub width : ℕ
  pub interval : ℕ
  pub passed : ℕ

-- `Poll` and `Width` of `Network`
pub record Limits : Type 0 where
  pub poll : ℕ
  pub width : ℕ

-- After a round that went well.
unfoldable pub after_good : Limits → Pace → Pace
after_good n p =
    let passed = p.passed + 1 in
    record {
      width = if leb recover_after passed then min (2 * p.width) n.width else p.width;
      interval = max (p.interval / 2) n.poll;
      passed = if leb recover_after passed then 0 else passed;
    }

-- After an error of the chain.
unfoldable pub after_error : Limits → ChainError → Pace → Pace
after_error n (rate_limited wait) p =
    if ltb 0 wait && leb wait max_interval
    then record p { passed = 0; interval = max wait n.poll }
    else record p { passed = 0; interval = min (2 * p.interval) max_interval }
after_error n too_wide p =
    if ltb min_width p.width
    then record p { passed = 0; width = max (p.width / 2) min_width }
    else record p { passed = 0 }
after_error n no_final p = record p { passed = 0 }
after_error n other p = record p { passed = 0 }

-- `after`, with whether the finalised range is behind; an error that is not the chain's is `other`
unfoldable pub after : Limits → Bool → Option ChainError → Pace → Pace
unfolding after_good after_error
after n true result p = p
after n false none p = after_good n p
after n false (some e) p = after_error n e p

-- The last block of a round of `settled`.
unfoldable pub last_of : ℕ → ℕ → ℕ → ℕ
last_of width from final = if ltb (from + width) final then from + width else final

-- The first block of a round of `ahead`.
unfoldable pub first_of : ℕ → ℕ → ℕ → ℕ
first_of width final latest =
    if ltb width (latest - (final + 1) + 1) then latest - width + 1 else final + 1
