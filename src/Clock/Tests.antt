-- ===== src/Clock/Tests.antt =====
-- The theorems of the clock on two readings, and on a counter of 3.3 GHz.
use message_us_cld.Prelude.{ℕ, ◌+◌, ◌-◌, ◌*◌, ◌/◌, ◌≡◌, refl, arith, [], ◌∷◌, ◌++◌, some, sub64}
use message_us_cld.Clock.{
  Timespec, Correlation, TscClock, spin_target, is_before, spin, elapsed_ns, calibrate_ghz,
  store_wall, to_wall_ns,
}
use message_us_cld.Clock.Calibrate.{nanoseconds, FirstAt, calibrate_ghz-elapsed}

-- The target carries into the seconds.
abbrev start : Timespec
start = record { tv_sec = 9; tv_nsec = 970000000 }

abbrev too_early : Timespec
too_early = record { tv_sec = 10; tv_nsec = 19999999 }

abbrev late_enough : Timespec
late_enough = record { tv_sec = 10; tv_nsec = 20000100 }

calibrate_ghz-elapsed_example :
    (t1 : Timespec) × (calibrate_ghz start 1000 ((too_early ∷ []) ++ late_enough ∷ []) 150001300
      ≡ some (sub64 150001300 1000, nanoseconds t1 - nanoseconds start))
    × FirstAt (nanoseconds start + 50000000) ((too_early ∷ []) ++ late_enough ∷ []) t1
calibrate_ghz-elapsed_example =
    calibrate_ghz-elapsed start late_enough (too_early ∷ []) [] 1000 150001300
      (omega arith, omega arith) ((omega arith, omega arith), tt) (omega arith, omega arith) tt
      (omega arith)

calibrate_ghz-value :
    calibrate_ghz start 1000 (too_early ∷ late_enough ∷ []) 150001300 ≡ some (150000300, 50000100)
unfolding calibrate_ghz spin spin_target is_before elapsed_ns
calibrate_ghz-value = refl

-- A counter of 3.3 GHz, with the fractions of a nanosecond cut off.
abbrev ticks : ℕ → ℕ
ticks n = n * 10 / 33

abbrev clock : TscClock
clock = record { tsc_base = 1000; wall_base_ns = 500000 }

abbrev snapped : Correlation
snapped = record { tsc = 6000; wall_ns = 501515 }

-- Both correlations give 501818, and the conversion in between 503333.
torn_value : to_wall_ns ticks clock (store_wall snapped clock) 7000 ≡ 503333
unfolding to_wall_ns store_wall
torn_value = refl
