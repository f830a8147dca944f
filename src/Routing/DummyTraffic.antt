-- ===== src/Routing/DummyTraffic.antt =====
-- crates/veil-routing/src/dummy_traffic.rs: dummy cells at random intervals. A `Duration` is a number of
-- nanoseconds; `none` is the panic of a remainder by zero. The sleep itself is not modelled.
use orf_veil.Prelude.{
  ℕ, ◌+◌, ◌-◌, ◌%◌, ◌*◌, ◌/◌, ◌<◌, ◌≤◌, ◌≡◌, arith, Option, none, some, max, if◌then◌else◌, ◌==◌,
}
use orf_veil.External.Random.{Rng, RngLaws}
use orf_veil.Core.Cell.{Cell, new_dummy}
use orf_veil.Core.Cell.Valid.{IsValid, new_dummy-IsValid}
use native.Mathlib.Nat.{mod-lt}

pub record DummyTrafficGenerator : Type 0 where
  pub min_interval : ℕ
  pub max_interval : ℕ

-- `DummyTrafficGenerator::new`
abbrev pub new_generator : ℕ → ℕ → DummyTrafficGenerator
new_generator min_interval max_interval = record {
  min_interval = min_interval;
  max_interval = max_interval;
}

-- The span of the jitter: `.saturating_sub(..).as_millis().max(1) as u64`.
unfoldable pub jitter_span : DummyTrafficGenerator → ℕ
jitter_span g = max ((g.max_interval - g.min_interval) / 1000000) 1 % 18446744073709551616

-- `next_dummy`: the delay that it sleeps, and the cell.
unfoldable pub next_dummy :
    (r : Rng) → DummyTrafficGenerator → r.State → Option ((ℕ × Cell) × r.State)
next_dummy r g s =
    if jitter_span g == 0
    then none
    else (let (drawn, s') = r.next_u64 s in
        let (cell, s'') = new_dummy r s' in
        some ((g.min_interval + drawn % jitter_span g * 1000000, cell), s''))

jitter_bounds :
    (g : DummyTrafficGenerator) (drawn : ℕ)
    → (g.max_interval - g.min_interval) / 1000000 < 18446744073709551616
    → (g.min_interval ≤ g.min_interval + drawn % jitter_span g * 1000000)
      × (g.min_interval + drawn % jitter_span g * 1000000 < max g.max_interval (g.min_interval + 1))
      × (0 < jitter_span g)
unfolding jitter_span
jitter_bounds g drawn k =
    let span = max ((g.max_interval - g.min_interval) / 1000000) 1 in
    let e : span % 18446744073709551616 ≡ span = omega arith in
    let jitter : drawn % span < span = mod-lt drawn (omega arith) in
    rw e (omega arith, omega (arith, jitter), omega arith)

next_dummy-run :
    (r : Rng) (g : DummyTrafficGenerator) (s : r.State)
    → 0 < jitter_span g
    → next_dummy r g s
      ≡ some (
        (
          g.min_interval + (r.next_u64 s).0 % jitter_span g * 1000000,
          (new_dummy r (r.next_u64 s).1).0,
        ),
        (new_dummy r (r.next_u64 s).1).1,
      )
unfolding next_dummy
next_dummy-run r g s h = ground arith

-- When the span of the intervals is below 2 ^ 64 milliseconds, `next_dummy` does not panic; the delay
-- is at least the minimum, and below the maximum or, where that is not above the minimum, equal to the
-- minimum; the cell is valid.
pub next_dummy_ok :
    (r : Rng) (laws : RngLaws r) (g : DummyTrafficGenerator) (s : r.State)
    → (g.max_interval - g.min_interval) / 1000000 < 18446744073709551616
    → (delay : ℕ) × (cell : Cell) × (s' : r.State) × (next_dummy r g s ≡ some ((delay, cell), s'))
      × (g.min_interval ≤ delay)
      × (delay < max g.max_interval (g.min_interval + 1))
      × IsValid cell
next_dummy_ok r laws g s k =
    let (low, high, positive) = jitter_bounds g (r.next_u64 s).0 k in
    (
      g.min_interval + (r.next_u64 s).0 % jitter_span g * 1000000,
      (new_dummy r (r.next_u64 s).1).0,
      (new_dummy r (r.next_u64 s).1).1,
      next_dummy-run r g s positive,
      low,
      high,
      new_dummy-IsValid r laws (r.next_u64 s).1,
    )
