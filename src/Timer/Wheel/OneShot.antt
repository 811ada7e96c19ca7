-- ===== src/Timer/Wheel/OneShot.antt =====
-- A scheduled timer waits for its delay.
use message_us_cld.Prelude.{
  ℕ, ◌+◌, ◌<◌, ◌≡◌, refl, ap, ◌∙◌, arith, ◌&&◌, word, add64, ◌==◌, ltb, if◌then◌else◌,
}
use message_us_cld.Timer.Wheel.{Entry, Wheel, set_slot, insert, at_least_one, schedule, advance}
use message_us_cld.Timer.Wheel.Slots.{total}
use message_us_cld.Timer.Wheel.Moves.{total-insert}
use message_us_cld.Timer.Wheel.Due.{IsSteady, resting}
use message_us_cld.Timer.Wheel.Steady.{entries-IsSteady, schedule-IsSteady}
use message_us_cld.Timer.Wheel.Pending.{
  inert, after_tick, up_to_tick, total-cong, total-add, Room, advance_pending,
}

-- The one-shot timers of an id.
abbrev pub named : ℕ → Entry → ℕ
named id e = if (e.id == id) && (e.interval_ticks == 0) then 1 else 0

total-schedule :
    (weight : Entry → ℕ) (w : Wheel)
    → IsSteady w
    → (delay cb : ℕ)
    → total weight (schedule w delay cb).1
      ≡ total weight w
        + weight (record {
          id = w.next_id;
          expiry_tick = add64 w.jiffies (at_least_one delay);
          interval_ticks = 0;
          cb = cb;
        })
unfolding schedule
total-schedule weight w v delay cb =
    total-insert w.jiffies (resting w.jiffies) weight
      (entries-IsSteady v w.entries (add64 w.next_id 1) w.stats).on_time
      (record {
        id = w.next_id;
        expiry_tick = add64 w.jiffies (at_least_one delay);
        interval_ticks = 0;
        cb = cb;
      })

jiffies-schedule : (w : Wheel) (delay cb : ℕ) → (schedule w delay cb).1.jiffies ≡ w.jiffies
unfolding schedule insert set_slot
jiffies-schedule w delay cb = refl

-- Where callbacks leave the wheel alone, in a wheel as between two ticks that has no one-shot timer
-- under the next id: a one-shot timer scheduled with a delay (0 counting as 1) is in the wheel once
-- after any smaller number of ticks, and not any more after the delay's number of ticks or more, while
-- no tick is beyond the counter.
pub schedule-pending :
    (w : Wheel)
    → IsSteady w
    → total (named w.next_id) w ≡ 0
    → (delay cb n : ℕ) → w.jiffies + at_least_one delay < word
    → Room n (schedule w delay cb).1
    → total (named w.next_id) (advance inert n (schedule w delay cb).1).1
      ≡ (if ltb n (at_least_one delay) then 1 else 0)
schedule-pending w v fresh delay cb n fits room =
    let weight = named w.next_id in
    let later = after_tick (w.jiffies + n) weight in
    let stays =
      advance_pending n (schedule w delay cb).1 (schedule-IsSteady v delay cb fits) room weight
        (λ e ne. ground (arith, ne)) in
    stays
    ∙ total-cong (after_tick ((schedule w delay cb).1.jiffies + n) weight) later
        (schedule w delay cb).1
        (λ e. ap (λ j. after_tick (j + n) weight e) (jiffies-schedule w delay cb))
    ∙ total-schedule later w v delay cb
    ∙ (let none : total later w ≡ 0 = omega (
      arith,
      fresh,
      total-add (up_to_tick (w.jiffies + n) weight) later weight w (λ e. ground arith),
    ) in
        ground (arith, none, fits))
