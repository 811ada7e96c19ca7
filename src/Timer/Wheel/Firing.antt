-- ===== src/Timer/Wheel/Firing.antt =====
-- A tick, with its callbacks, and whole runs of calls.
use native.Mathlib.Decide.{ℕ_discrete}
use message_us_cld.Prelude.{
  ℕ, ◌+◌, ◌<◌, ◌≡◌, refl, sym, ◌∙◌, subst, arith, List, [], ◌∷◌, word, add64, ◌==◌, if◌then◌else◌,
  length, sum_by,
}
use message_us_cld.Timer.Wheel.{
  Entry, Wheel, set_slot, erase, insert, at_least_one, schedule, schedule_periodic, cancel, fire,
  tick,
}
use message_us_cld.Timer.Wheel.Slots.{total}
use message_us_cld.Timer.Wheel.Placed.{All, All-map}
use message_us_cld.Timer.Wheel.Due.{IsSteady, due, remaining, tick-due, at_tick}
use message_us_cld.Timer.Wheel.Steady.{
  insert-IsSteady, entries-IsSteady, schedule-IsSteady, schedule_periodic-IsSteady, cancel-IsSteady,
}

pub data Call : Type 0 where
  schedules repeats : ℕ → ℕ → Call
  cancels : ℕ → Call
  ticks : Call

length-sum_by : (es : List Entry) → sum_by (λ e. 1) es ≡ length es
length-sum_by [] = refl
length-sum_by (e ∷ es) = omega (arith, length-sum_by es)

-- Callbacks that leave a wheel as it has to be between two ticks, and its tick alone.
abbrev pub Behaves : (ℕ → Wheel → Wheel) → Type 0
Behaves callback =
    (cb : ℕ) (w : Wheel)
    → IsSteady w
    → IsSteady (callback cb w) × ((callback cb w).jiffies ≡ w.jiffies)

jiffies-insert : (w : Wheel) (e : Entry) → (insert w e).jiffies ≡ w.jiffies
unfolding insert set_slot
jiffies-insert w e = refl

module _ (callback : ℕ → Wheel → Wheel) (behaves : Behaves callback) where
  -- A periodic timer goes back into the wheel, at a later tick.
  pub again-IsSteady :
      (w : Wheel) (e : Entry)
      → IsSteady w
      → w.jiffies + e.interval_ticks < word
      → let w' =
          if e.interval_ticks == 0
          then w
          else insert w (record e { expiry_tick = add64 w.jiffies e.interval_ticks }) in
        IsSteady w' × (w'.jiffies ≡ w.jiffies)
  again-IsSteady w e v fits = elim (ℕ_discrete e.interval_ticks 0) [
    | yes once ↦ subst Kept (ground (arith, once)) (v, refl)
    | no ne ↦ subst Kept (ground (arith, ne)) (
      insert-IsSteady v (record e { expiry_tick = add64 w.jiffies e.interval_ticks })
          (omega (arith, ne, fits)) (omega (arith, fits)),
      jiffies-insert w (record e { expiry_tick = add64 w.jiffies e.interval_ticks }),
    )
  ]
    where
      Kept : Wheel → Type 0
      Kept u = IsSteady u × (u.jiffies ≡ w.jiffies)

  fire-IsSteady :
      (es : List Entry) (w : Wheel)
      → IsSteady w
      → All (λ e. w.jiffies + e.interval_ticks < word) es
      → IsSteady (fire callback es w).1
        × ((fire callback es w).1.jiffies ≡ w.jiffies)
        × ((fire callback es w).0 ≡ length es)
  unfolding fire
  fire-IsSteady [] w v p = (v, refl, refl)
  fire-IsSteady (e ∷ es) w v (p, ps) =
      let (v1, same1) =
        behaves e.cb (record w { entries = erase w.entries e.id })
          (entries-IsSteady v (erase w.entries e.id) w.next_id w.stats) in
      let (v2, same2) =
        again-IsSteady w2 e
          (entries-IsSteady v1 w1.entries w1.next_id
            (record (w1.stats) { fired = add64 w1.stats.fired 1 }))
          (omega (arith, same1, p)) in
      let (v3, same3, count) = fire-IsSteady es next v2 (
        All-map (λ x. w.jiffies + x.interval_ticks < word)
          (λ x. next.jiffies + x.interval_ticks < word) es (λ x q. omega (arith, q, same1, same2))
          ps) in
      (v3, same3 ∙ same2 ∙ same1, omega (arith, count))
    where
      w1 : Wheel
      w1 = callback e.cb (record w { entries = erase w.entries e.id })

      w2 : Wheel
      w2 = record w1 { stats = record (w1.stats) { fired = add64 w1.stats.fired 1 } }

      next : Wheel
      next =
          if e.interval_ticks == 0
          then w2
          else insert w2 (record e { expiry_tick = add64 w2.jiffies e.interval_ticks })

  -- Between two ticks, with callbacks that leave a wheel so, where neither the counter nor the
  -- next expiry of a periodic timer that is due runs past its end: after a tick the wheel is as
  -- between two ticks again, the counter is one on, and the tick returns how many timers of the wheel
  -- expire at it.
  pub tick-IsSteady :
      (w : Wheel)
      → IsSteady w
      → w.jiffies + 1 < word
      → All (λ e. w.jiffies + 1 + e.interval_ticks < word) (due w)
      → IsSteady (tick callback w).1
        × ((tick callback w).1.jiffies ≡ w.jiffies + 1)
        × ((tick callback w).0 ≡ total (at_tick (w.jiffies + 1) (λ e. 1)) w)
  tick-IsSteady w v fits again =
      let (runs, exact, kept, now, rest) = tick-due v fits callback in
      let (steady, same, count) = fire-IsSteady (due w) (remaining w) rest (
        All-map (λ x. w.jiffies + 1 + x.interval_ticks < word)
          (λ x. (remaining w).jiffies + x.interval_ticks < word) (due w)
          (λ x q. omega (arith, q, now)) again) in
      subst
        (λ r.
          IsSteady r.1
          × (r.1.jiffies ≡ w.jiffies + 1)
          × (r.0 ≡ total (at_tick (w.jiffies + 1) (λ e. 1)) w))
        (sym runs) (steady, same ∙ now, count ∙ sym (length-sum_by (due w)) ∙ exact (λ e. 1))

module _ (callback : ℕ → Wheel → Wheel) where
  -- The calls that the owner of a wheel makes.
  unfoldable pub perform : Call → Wheel → Wheel
  perform (schedules delay cb) w = (schedule w delay cb).1
  perform (repeats interval cb) w = (schedule_periodic w interval cb).1
  perform (cancels id) w = (cancel w id).1
  perform ticks w = (tick callback w).1

  unfoldable pub run : List Call → Wheel → Wheel
  run [] w = w
  run (c ∷ cs) w = run cs (perform c w)

  -- No tick is beyond the counter.
  abbrev pub Fits : Call → Wheel → Type 0
  Fits (schedules delay cb) w = w.jiffies + at_least_one delay < word
  Fits (repeats interval cb) w = w.jiffies + at_least_one interval < word
  Fits (cancels id) w = Unit {0}
  Fits ticks w = (w.jiffies + 1 < word) × All (λ e. w.jiffies + 1 + e.interval_ticks < word) (due w)

  abbrev pub AllFit : List Call → Wheel → Type 0
  AllFit [] w = Unit {0}
  AllFit (c ∷ cs) w = Fits c w × AllFit cs (perform c w)

module _ (callback : ℕ → Wheel → Wheel) (behaves : Behaves callback) where
  pub run-IsSteady :
      (cs : List Call) (w : Wheel)
      → IsSteady w
      → AllFit callback cs w
      → IsSteady (run callback cs w)
  unfolding run perform
  run-IsSteady [] w v fit = v
  run-IsSteady (schedules delay cb ∷ cs) w v (fits, fit) =
      run-IsSteady cs (schedule w delay cb).1 (schedule-IsSteady v delay cb fits) fit
  run-IsSteady (repeats interval cb ∷ cs) w v (fits, fit) =
      run-IsSteady cs (schedule_periodic w interval cb).1
        (schedule_periodic-IsSteady v interval cb fits) fit
  run-IsSteady (cancels id ∷ cs) w v (fits, fit) =
      run-IsSteady cs (cancel w id).1 (cancel-IsSteady v id) fit
  run-IsSteady (ticks ∷ cs) w v (fits, fit) =
      run-IsSteady cs (tick callback w).1 (tick-IsSteady callback behaves w v fits.0 fits.1).0 fit
