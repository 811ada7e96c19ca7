-- ===== src/Timer/Tests.antt =====
-- The theorems of the timer wheel on a new wheel.
mod Epoll
use message_us_cld.Prelude.{
  ℕ, zero, suc, ◌<◌, ◌≡◌, refl, sym, subst, arith, true, List, [], length, length-replicate,
  replicate, get_or, add64,
}
use message_us_cld.Timer.Wheel.{
  Entry, slot_counts, new_wheel, find, erase, slot_at, set_slot, place, insert, schedule,
  schedule_periodic, cancel, fire, fire_slot, reinsert, cascade_slot, cascade, cascades, current,
  tick, advance,
}
use message_us_cld.Timer.Wheel.New.{new_wheel-IsReady, new_wheel-IsSteady, run_from_new}
use message_us_cld.Timer.Wheel.Slots.{total}
use message_us_cld.Timer.Wheel.Due.{IsSteady, due, remaining, at_tick, tick-due}
use message_us_cld.Timer.Wheel.Steady.{schedule-IsSteady}
use message_us_cld.Timer.Wheel.Firing.{
  tick-IsSteady, Call, schedules, repeats, cancels, ticks, perform, run,
}
use message_us_cld.Timer.Wheel.Pending.{inert, inert-Behaves}
use message_us_cld.Timer.Wheel.OneShot.{named, schedule-pending}
use message_us_cld.Timer.Wheel.{Wheel, at_least_one, remove}
use message_us_cld.Prelude.{◌+◌, ◌∷◌, sum_by, if◌then◌else◌, ltb}
use message_us_cld.Timer.Wheel.Cancel.{
  Absent, IsReady, place-in_range, cancel-schedule, cancel-schedule_periodic,
}

cancel-schedule_example :
    cancel (schedule (new_wheel 1000000) 300 5).1 (schedule (new_wheel 1000000) 300 5).0 ≡ (
      true,
      record (new_wheel 1000000) {
        next_id = add64 (new_wheel 1000000).next_id 1;
        stats = record ((new_wheel 1000000).stats) {
          inserted = add64 (new_wheel 1000000).stats.inserted 1;
          cancelled = add64 (new_wheel 1000000).stats.cancelled 1;
        };
      },
    )
cancel-schedule_example = cancel-schedule (new_wheel 1000000) (new_wheel-IsReady 1000000) 300 5

-- With callbacks that leave the wheel alone, a timer of three ticks fires at the third.
fires_at_third : (advance (λ cb w. w) 3 (schedule (new_wheel 1000000) 3 5).1).0 ≡ 1
unfolding new_wheel schedule insert place slot_at set_slot erase find advance tick cascades cascade
    cascade_slot current reinsert fire_slot fire
fires_at_third = refl

not_at_second : (advance (λ cb w. w) 2 (schedule (new_wheel 1000000) 3 5).1).0 ≡ 0
unfolding new_wheel schedule insert place slot_at set_slot erase find advance tick cascades cascade
    cascade_slot current reinsert fire_slot fire
not_at_second = refl

-- A new wheel, with a timer for the third tick.
abbrev fresh_wheel : Wheel
fresh_wheel = new_wheel 1000000

with_timer : Wheel
with_timer = (schedule fresh_wheel 3 5).1

with_timer-IsSteady : IsSteady with_timer
unfolding with_timer new_wheel
with_timer-IsSteady = schedule-IsSteady (new_wheel-IsSteady 1000000) 3 5 (omega arith)

tick-due_example :
    (tick inert with_timer ≡ fire inert (due with_timer) (remaining with_timer))
    × ((weight : Entry → ℕ)
        → sum_by weight (due with_timer)
          ≡ total (at_tick (with_timer.jiffies + 1) weight) with_timer)
    × ((weight : Entry → ℕ)
        → total weight (remaining with_timer) + sum_by weight (due with_timer)
          ≡ total weight with_timer)
    × ((remaining with_timer).jiffies ≡ with_timer.jiffies + 1)
    × IsSteady (remaining with_timer)
unfolding with_timer new_wheel schedule insert set_slot
tick-due_example = tick-due with_timer-IsSteady (omega arith) inert

tick-IsSteady_example :
    IsSteady (tick inert with_timer).1
    × ((tick inert with_timer).1.jiffies ≡ with_timer.jiffies + 1)
    × ((tick inert with_timer).0 ≡ total (at_tick (with_timer.jiffies + 1) (λ e. 1)) with_timer)
unfolding with_timer new_wheel schedule insert place slot_at set_slot erase cascades
tick-IsSteady_example =
    tick-IsSteady inert inert-Behaves with_timer with_timer-IsSteady (omega arith) tt

run_from_new_example :
    IsSteady (run inert (schedules 3 5 ∷ repeats 2 6 ∷ cancels 1 ∷ ticks ∷ []) fresh_wheel)
unfolding new_wheel perform schedule schedule_periodic cancel find remove insert place slot_at
    set_slot erase cascades
run_from_new_example =
    run_from_new inert inert-Behaves 1000000 (schedules 3 5 ∷ repeats 2 6 ∷ cancels 1 ∷ ticks ∷ [])
      (omega arith, (omega arith, (tt, ((omega arith, tt), tt))))

schedule-pending_example :
    total (named fresh_wheel.next_id) (advance inert 2 (schedule fresh_wheel 3 5).1).1
    ≡ (if ltb 2 (at_least_one 3) then 1 else 0)
unfolding new_wheel schedule insert place slot_at set_slot erase cascades tick fire fire_slot
schedule-pending_example =
    schedule-pending fresh_wheel (new_wheel-IsSteady 1000000) refl 3 5 2 (omega arith)
      (omega arith, tt, (omega arith, tt, tt))
