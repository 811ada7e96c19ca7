-- ===== src/Clock/Recalibrate.antt =====
-- A conversion while another thread recalibrates (common/tsc_clock.hpp: recalibrate and to_wall_ns).
use message_us_cld.Prelude.{ℕ, zero, suc, ◌≤◌}
use message_us_cld.Clock.{Correlation, TscClock, store_wall, recalibrate}

-- The clock after so many of the stores of recalibrate.
abbrev pub after_stores : ℕ → Correlation → TscClock → TscClock
after_stores zero c clock = clock
after_stores (suc zero) c clock = store_wall c clock
after_stores (suc (suc n)) c clock = recalibrate c clock

-- More ticks are not fewer nanoseconds, as with the conversion to double, the division by a positive
-- frequency and the truncation, each of which is monotone.
abbrev pub IsMonotone : (ℕ → ℕ) → Type 0
IsMonotone ns_of = (a b : ℕ) → a ≤ b → ns_of a ≤ ns_of b
