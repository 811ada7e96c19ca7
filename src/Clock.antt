-- ===== src/Clock.antt =====
-- common/tsc_clock.hpp: TscClock. What rdtscp and clock_gettime give is a parameter, and so is
-- `ns_of`, the division of a number of ticks by the frequency. Seconds and nanoseconds are not
-- negative.
pub mod Calibrate
pub mod Recalibrate
mod Tests
use message_us_cld.Prelude.{
  ℕ, ◌+◌, ◌-◌, ◌*◌, ◌/◌, ◌%◌, Bool, List, [], ◌∷◌, Option, some, none, ◌||◌, ◌&&◌, ◌==◌, ltb, leb,
  if◌then◌else◌, word, add64, sub64,
}

pub record Timespec : Type 0 where
  pub tv_sec : ℕ
  pub tv_nsec : ℕ

pub record Correlation : Type 0 where
  pub tsc : ℕ
  pub wall_ns : ℕ

pub record TscClock : Type 0 where
  pub tsc_base : ℕ
  pub wall_base_ns : ℕ

-- The time 50 ms after `t0`.
unfoldable pub spin_target : Timespec → Timespec
spin_target t0 =
    let tv_nsec = t0.tv_nsec + 50000000 in
    if leb 1000000000 tv_nsec
    then record { tv_sec = t0.tv_sec + 1; tv_nsec = tv_nsec - 1000000000 }
    else record { tv_sec = t0.tv_sec; tv_nsec = tv_nsec }

unfoldable pub is_before : Timespec → Timespec → Bool
is_before t target =
    ltb t.tv_sec target.tv_sec || (t.tv_sec == target.tv_sec && ltb t.tv_nsec target.tv_nsec)

-- The loop over the readings of the clock; a list that is over leaves it spinning.
unfoldable pub spin : Timespec → List Timespec → Option Timespec
spin target [] = none
spin target (t ∷ ts) = if is_before t target then spin target ts else some t

unfoldable pub elapsed_ns : Timespec → Timespec → ℕ
elapsed_ns t0 t1 =
    sub64 (add64 (sub64 t1.tv_sec t0.tv_sec * 1000000000 % word) t1.tv_nsec) t0.tv_nsec

-- The ticks and the nanoseconds whose quotient is the frequency.
unfoldable pub calibrate_ghz : Timespec → ℕ → List Timespec → ℕ → Option (ℕ × ℕ)
calibrate_ghz t0 tsc0 readings tsc1 = elim (spin (spin_target t0) readings) [
  | none ↦ none
  | some t1 ↦ some (sub64 tsc1 tsc0, elapsed_ns t0 t1)
]

unfoldable pub snap_correlation : Timespec → ℕ → Timespec → Correlation
snap_correlation t0 tsc t1 =
    let w0 = t0.tv_sec * 1000000000 + t0.tv_nsec in
    let w1 = t1.tv_sec * 1000000000 + t1.tv_nsec in record { tsc = tsc; wall_ns = (w0 + w1) / 2 }

-- The clock with its first correlation; the frequency is a parameter of what uses it.
unfoldable pub construct : Correlation → TscClock
construct c = record { tsc_base = c.tsc; wall_base_ns = c.wall_ns }

-- The stores of recalibrate, in their order.
unfoldable pub store_wall : Correlation → TscClock → TscClock
store_wall c clock = record clock { wall_base_ns = c.wall_ns }

unfoldable pub store_tsc : Correlation → TscClock → TscClock
store_tsc c clock = record clock { tsc_base = c.tsc }

unfoldable pub recalibrate : Correlation → TscClock → TscClock
recalibrate c clock = store_tsc c (store_wall c clock)

-- The clock as the load of the first base finds it, and as the load of the second does.
unfoldable pub to_wall_ns : (ℕ → ℕ) → TscClock → TscClock → ℕ → ℕ
to_wall_ns ns_of at_first at_second tsc =
    at_second.wall_base_ns + ns_of (sub64 tsc at_first.tsc_base)
