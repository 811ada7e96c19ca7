-- ===== src/Timer/Epoll/Cadence.antt =====
-- The loop of EpollTimer::drain_expired that moves a periodic timer on (timer/src/epoll_timer.cpp).
use native.Mathlib.Decide.{dec_le}
use message_us_cld.Prelude.{ℕ, zero, suc, ◌+◌, ◌-◌, ◌*◌, ◌≤◌, ◌<◌, ◌≡◌, refl, arith, ◌⊎◌, inl, inr}
use message_us_cld.Timer.Epoll.{catch_up, next_expiry}

-- `t` is the first of `start`, `start + interval`, ... that is after `now`: it is `start`, or the one
-- before it is not after `now`.
abbrev pub FirstAfter : ℕ → ℕ → ℕ → ℕ → Type 0
FirstAfter now interval start t =
    (k : ℕ) × (t ≡ start + k * interval) × (now < t) × ((k ≡ 0) ⊎ (t ≤ now + interval))

catch_up-FirstAfter :
    (fuel now interval start : ℕ)
    → 0 < interval
    → now + 1 - start ≤ fuel
    → FirstAfter now interval start (catch_up fuel now interval start)
unfolding catch_up
catch_up-FirstAfter zero now interval start pos enough =
    (0, omega arith, omega (arith, enough), inl refl)
catch_up-FirstAfter (suc fuel) now interval start pos enough = elim (dec_le start now) [
  | no after ↦ (0, ground (arith, after), ground (arith, after), inl refl)
  | yes behind ↦
      let (k, at_k, late, first) =
        catch_up-FirstAfter fuel now interval (start + interval) pos
          (omega (arith, pos, enough, behind)) in
      (
        suc k,
        ground (arith, behind, at_k),
        ground (arith, behind, late),
        inr (ground (arith, behind, at_k, first)),
      )
]

-- A periodic timer that was due at `expiry` is next due at the first of its later times, `expiry +
-- interval`, `expiry + 2 * interval` and so on, that is after `now`: the loop that moves it on ends
-- there. The interval is positive.
pub next_expiry-FirstAfter :
    (now interval expiry : ℕ)
    → 0 < interval
    → FirstAfter now interval (expiry + interval) (next_expiry now interval expiry)
unfolding next_expiry
next_expiry-FirstAfter now interval expiry pos =
    catch_up-FirstAfter (now + 1 - (expiry + interval)) now interval (expiry + interval) pos
      (omega arith)

pub next_expiry-later :
    (now interval expiry : ℕ) → 0 < interval → now < next_expiry now interval expiry
next_expiry-later now interval expiry pos = (next_expiry-FirstAfter now interval expiry pos).2
