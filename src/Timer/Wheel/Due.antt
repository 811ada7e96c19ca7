-- ===== src/Timer/Wheel/Due.antt =====
-- What a tick takes out of the wheel: the timers that expire at it, all of them and no others.
use native.Mathlib.Decide.{dec_lt}
use message_us_cld.Prelude.{
  ℕ, zero, suc, ◌+◌, ◌-◌, ◌/◌, ◌%◌, ◌≤◌, ◌<◌, ◌≡◌, ◌≢◌, refl, sym, ap, ◌∙◌, subst, arith, List, [],
  ◌∷◌, word, add64, bit_and, bit_and_mask, ◌==◌, if◌then◌else◌, get_or, length, sum_by,
}
use message_us_cld.Timer.Wheel.{
  Entry, Location, Wheel, slot_at, set_slot, cascades, fire, fire_slot, tick,
}
use message_us_cld.Timer.Wheel.Slots.{InRange, set_slot-IsShaped, total-set_slot, total, total-zero}
use message_us_cld.Timer.Wheel.Cancel.{mask-lt}
use message_us_cld.Timer.Wheel.Placed.{Clock, Placed, All, All-map}
use message_us_cld.Timer.Wheel.Moves.{OnTime, jiffies-set_slot, set_slot-placed}
use message_us_cld.Timer.Wheel.Cascade.{clock}
use message_us_cld.Timer.Wheel.Turn.{before, after, cascades-OnTime}

-- Between two ticks: all timers of the current tick have fired.
abbrev pub resting : ℕ → Clock
resting j = clock (j + 1) (j / 256) (j / 16384) (j / 1048576)

pub record IsSteady (w : Wheel) : Type 0 where
  pub on_time : OnTime w.jiffies (resting w.jiffies) w
  pub in_word : w.jiffies < word

-- The weight of the timers of one tick.
abbrev pub at_tick : ℕ → (Entry → ℕ) → Entry → ℕ
at_tick j weight e = if e.expiry_tick == j then weight e else 0

-- What the next tick takes out, and what it leaves before the callbacks run.
abbrev turned : Wheel → Wheel
turned w = cascades (record w { jiffies = add64 w.jiffies 1 })

abbrev lowest : Wheel → Location
lowest w = record { level = 0; slot = bit_and (turned w).jiffies 255 }

abbrev pub due : Wheel → List Entry
due w = slot_at (turned w) (lowest w)

abbrev pub remaining : Wheel → Wheel
remaining w = set_slot (turned w) (lowest w) []

late : (j level slot expiry : ℕ) → level < 4 → Placed (resting j) level slot expiry → j < expiry
late j zero slot expiry lt p = omega (arith, p)
late j (suc zero) slot expiry lt p = omega (arith, p)
late j (suc (suc zero)) slot expiry lt p = omega (arith, p)
late j (suc (suc (suc zero))) slot expiry lt p = omega (arith, p)
late j (suc (suc (suc (suc level)))) slot expiry lt p = absurd (omega arith)

-- An emptied slot moves the clock on.
emptied :
    (j level slot expiry : ℕ)
    → (0 ≡ level → bit_and j 255 ≢ slot)
    → Placed (after j) level slot expiry
    → Placed (resting j) level slot expiry
emptied j zero slot expiry ne p =
    let away : j % 256 ≢ slot = λ e. ne refl (bit_and_mask 8 j ∙ e) in
    (p.0, omega (arith, p, away), omega (arith, p), p.3)
emptied j (suc zero) slot expiry ne p = p
emptied j (suc (suc zero)) slot expiry ne p = p
emptied j (suc (suc (suc zero))) slot expiry ne p = p
emptied j (suc (suc (suc (suc level)))) slot expiry ne p = tt

weigh_none :
    (j : ℕ) (weight : Entry → ℕ)
    → ((e : Entry) → j < e.expiry_tick → weight e ≡ 0)
    → (es : List Entry) → All (λ e. j < e.expiry_tick) es
    → sum_by weight es ≡ 0
weigh_none j weight none [] p = refl
weigh_none j weight none (e ∷ es) (late_e, p) =
    omega (arith, none e late_e, weigh_none j weight none es p)

weigh-All :
    (j : ℕ) (weight : Entry → ℕ) (es : List Entry)
    → All (λ e. e.expiry_tick ≡ j) es
    → sum_by (at_tick j weight) es ≡ sum_by weight es
weigh-All j weight [] p = refl
weigh-All j weight (e ∷ es) (same, p) =
    let rest = weigh-All j weight es p in ground (arith, same, rest)

get_or-beyond : {A : Type 0} (xs : List A) (i : ℕ) (d : A) → length xs ≤ i → get_or xs i d ≡ d
get_or-beyond [] i d le = refl
get_or-beyond (x ∷ xs) zero d le = absurd (omega arith)
get_or-beyond (x ∷ xs) (suc i) d le = get_or-beyond xs i d (omega arith)

-- Between two ticks every timer of the wheel is due later.
pub nothing_due :
    (weight : Entry → ℕ) (j : ℕ) {w : Wheel}
    → ((e : Entry) → j < e.expiry_tick → weight e ≡ 0)
    → OnTime j (resting j) w
    → total weight w ≡ 0
unfolding slot_at
nothing_due weight j {w} none v = total-zero weight w λ loc. elim (dec_lt loc.level 4) [
  | yes lt ↦ weigh_none j weight none (slot_at w loc) (
      All-map (λ e. Placed (resting j) loc.level loc.slot e.expiry_tick) (λ e. j < e.expiry_tick)
        (slot_at w loc) (λ e p. late j loc.level loc.slot e.expiry_tick lt p) (v.placed loc))
  | no beyond ↦
      ap (λ ss. sum_by weight (get_or ss loc.slot []))
        (get_or-beyond w.levels loc.level [] (omega (arith, v.shaped.level_count, beyond)))
]

module _ {w : Wheel} (v : IsSteady w) (fits : w.jiffies + 1 < word) where
  abbrev now : ℕ
  now = w.jiffies + 1

  advanced : OnTime now (before now) (record w { jiffies = add64 w.jiffies 1 })
  unfolding slot_at
  advanced = record {
    shaped = record {
      level_count = v.on_time.shaped.level_count;
      slot_count = v.on_time.shaped.slot_count;
    };
    placed = λ loc.
        subst
          (λ i.
            All
              (λ e.
                Placed (clock now (i / 256) (i / 16384) (i / 1048576)) loc.level loc.slot
                  e.expiry_tick)
              (slot_at w loc))
          {x = w.jiffies} {y = now - 1} (omega arith) (v.on_time.placed loc);
    now = omega (arith, fits);
  }

  turned-OnTime : OnTime now (after now) (turned w)
  turned-OnTime = (cascades-OnTime now (omega arith) fits advanced).0

  turned-total : (weight : Entry → ℕ) → total weight (turned w) ≡ total weight w
  turned-total = (cascades-OnTime now (omega arith) fits advanced).1

  lowest-InRange : InRange (lowest w)
  lowest-InRange = (omega arith, mask-lt 8 (turned w).jiffies)

  -- The tick's own slot holds nothing that is not due.
  pub due_now : All (λ e. e.expiry_tick ≡ now) (due w)
  due_now =
      All-map (λ e. Placed (after now) 0 (lowest w).slot e.expiry_tick) (λ e. e.expiry_tick ≡ now)
        (due w) (λ e p. omega (arith, p, bit_and_mask 8 (turned w).jiffies, turned-OnTime.now))
        (turned-OnTime.placed (lowest w))

  remaining-OnTime : OnTime now (resting now) (remaining w)
  remaining-OnTime = record {
    shaped = set_slot-IsShaped turned-OnTime.shaped lowest-InRange [];
    placed =
        set_slot-placed turned-OnTime.shaped
          (λ l x. Placed (after now) l.level l.slot x.expiry_tick)
          (λ l x. Placed (resting now) l.level l.slot x.expiry_tick) (lowest w) lowest-InRange []
          turned-OnTime.placed
          (λ other ne x p.
            emptied now other.level other.slot x.expiry_tick
              (λ l s. ne l (ap (λ i. bit_and i 255) turned-OnTime.now ∙ s)) p)
          tt;
    now = jiffies-set_slot (turned w) (lowest w) [] ∙ turned-OnTime.now;
  }

  taken : (weight : Entry → ℕ) → total weight (remaining w) + sum_by weight (due w) ≡ total weight w
  taken weight =
      omega
        (arith, total-set_slot turned-OnTime.shaped lowest-InRange [] weight, turned-total weight)

  pub remaining-IsSteady : IsSteady (remaining w)
  remaining-IsSteady = record {
    on_time =
        subst (λ j. OnTime j (resting j) (remaining w)) (sym remaining-OnTime.now) remaining-OnTime;
    in_word = omega (arith, fits, remaining-OnTime.now);
  }

  -- Between two ticks, short of the last one of the counter: the next tick runs the callbacks of
  -- exactly the timers that expire at it, each as often as it is in the wheel, on a wheel that has all
  -- the others, that stands at the new tick and is again as between two ticks.
  pub tick-due :
      (callback : ℕ → Wheel → Wheel)
      → (tick callback w ≡ fire callback (due w) (remaining w))
        × ((weight : Entry → ℕ) → sum_by weight (due w) ≡ total (at_tick (w.jiffies + 1) weight) w)
        × ((weight : Entry → ℕ)
            → total weight (remaining w) + sum_by weight (due w) ≡ total weight w)
        × ((remaining w).jiffies ≡ w.jiffies + 1)
        × IsSteady (remaining w)
  unfolding tick fire_slot
  tick-due callback = (
    refl,
    λ weight. omega (
      arith,
      weigh-All now weight (due w) due_now,
      taken (at_tick now weight),
      nothing_due (at_tick now weight) now (λ e lt. ground (arith, lt)) remaining-OnTime,
    ),
    taken,
    remaining-OnTime.now,
    remaining-IsSteady,
  )
