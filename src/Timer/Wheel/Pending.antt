-- ===== src/Timer/Wheel/Pending.antt =====
-- Which timers are still in the wheel after a number of ticks.
use native.Mathlib.Decide.{ℕ_discrete}
use message_us_cld.Prelude.{
  ℕ, zero, suc, ◌+◌, ◌<◌, ◌≡◌, ◌≢◌, refl, sym, ◌∙◌, subst, arith, List, [], ◌∷◌, word, add64, ◌==◌,
  ltb, if◌then◌else◌, sum_by, sum_by-cong, sum_by-add,
}
use message_us_cld.Timer.Wheel.{Entry, Wheel, erase, insert, fire, tick, advance}
use message_us_cld.Timer.Wheel.Slots.{total}
use message_us_cld.Timer.Wheel.Placed.{All, All-map}
use message_us_cld.Timer.Wheel.Moves.{total-insert}
use message_us_cld.Timer.Wheel.Due.{
  IsSteady, due, remaining, tick-due, at_tick, nothing_due, resting,
}
use message_us_cld.Timer.Wheel.Steady.{entries-IsSteady}
use message_us_cld.Timer.Wheel.Firing.{Behaves, again-IsSteady, tick-IsSteady}

-- A callback that leaves the wheel alone.
abbrev pub inert : ℕ → Wheel → Wheel
inert cb w = w

-- The weight of the timers that expire later than a tick.
abbrev pub after_tick : ℕ → (Entry → ℕ) → Entry → ℕ
after_tick j weight e = if ltb j e.expiry_tick then weight e else 0

abbrev pub up_to_tick : ℕ → (Entry → ℕ) → Entry → ℕ
up_to_tick j weight e = if ltb j e.expiry_tick then 0 else weight e

-- Only one-shot timers weigh anything.
abbrev pub OneShot : (Entry → ℕ) → Type 0
OneShot weight = (e : Entry) → e.interval_ticks ≢ 0 → weight e ≡ 0

pub total-cong : (f g : Entry → ℕ) (w : Wheel) → ((e : Entry) → f e ≡ g e) → total f w ≡ total g w
total-cong f g w same =
    sum_by-cong (sum_by (sum_by f)) (sum_by (sum_by g))
      (λ ss. sum_by-cong (sum_by f) (sum_by g) (λ es. sum_by-cong f g same es) ss) w.levels

pub total-add :
    (f g h : Entry → ℕ) (w : Wheel)
    → ((e : Entry) → f e + g e ≡ h e)
    → total f w + total g w ≡ total h w
total-add f g h w split =
    sum_by-add (sum_by (sum_by f)) (sum_by (sum_by g)) (sum_by (sum_by h))
      (λ ss. sum_by-add (sum_by f) (sum_by g) (sum_by h) (λ es. sum_by-add f g h split es) ss)
      w.levels

pub inert-Behaves : Behaves inert
inert-Behaves cb w v = (v, refl)

sum_by-nil : {A : Type 0} (f : A → ℕ) → ((x : A) → f x ≡ 0) → (xs : List A) → sum_by f xs ≡ 0
sum_by-nil f none [] = refl
sum_by-nil f none (x ∷ xs) = omega (arith, none x, sum_by-nil f none xs)

total-nil : (w : Wheel) → total (λ e. 0) w ≡ 0
total-nil w =
    sum_by-nil (sum_by (sum_by (λ e. 0)))
      (sum_by-nil (sum_by (λ e. 0)) (sum_by-nil (λ e. 0) (λ e. refl))) w.levels

module _ (weight : Entry → ℕ) (once : OneShot weight) where
  -- The timers that a tick puts back do not count.
  again-total :
      (w : Wheel) (e : Entry)
      → IsSteady w
      → w.jiffies + e.interval_ticks < word
      → total weight (
          if e.interval_ticks == 0
          then w
          else insert w (record e { expiry_tick = add64 w.jiffies e.interval_ticks }))
        ≡ total weight w
  again-total w e v fits = elim (ℕ_discrete e.interval_ticks 0) [
    | yes one ↦ ground (arith, one)
    | no ne ↦
        let again : Entry = record e { expiry_tick = add64 w.jiffies e.interval_ticks } in
        let added = total-insert w.jiffies (resting w.jiffies) weight v.on_time again in
        let none = once again ne in ground (arith, ne, added, none)
  ]

  fire-total :
      (es : List Entry) (w : Wheel)
      → IsSteady w
      → All (λ e. w.jiffies + e.interval_ticks < word) es
      → total weight (fire inert es w).1 ≡ total weight w
  unfolding fire
  fire-total [] w v p = refl
  fire-total (e ∷ es) w v (p, ps) =
      let (v', same) = again-IsSteady inert inert-Behaves w2 e v2 p in
      fire-total es next v' (
        All-map (λ x. w.jiffies + x.interval_ticks < word)
          (λ x. next.jiffies + x.interval_ticks < word) es (λ x q. omega (arith, q, same)) ps)
      ∙ again-total w2 e v2 p
    where
      w2 : Wheel
      w2 = record w {
        entries = erase w.entries e.id;
        stats = record (w.stats) { fired = add64 w.stats.fired 1 };
      }

      v2 : IsSteady w2
      v2 = entries-IsSteady v w2.entries w2.next_id w2.stats

      next : Wheel
      next =
          if e.interval_ticks == 0
          then w2
          else insert w2 (record e { expiry_tick = add64 w2.jiffies e.interval_ticks })

  -- A tick takes out the timers that expire at it.
  tick-total :
      (w : Wheel)
      → IsSteady w
      → w.jiffies + 1 < word
      → All (λ e. w.jiffies + 1 + e.interval_ticks < word) (due w)
      → total weight (tick inert w).1 + total (at_tick (w.jiffies + 1) weight) w ≡ total weight w
  tick-total w v fits again =
      let (runs, exact, kept, now, rest) = tick-due v fits inert in
      let same = fire-total (due w) (remaining w) rest (
        All-map (λ x. w.jiffies + 1 + x.interval_ticks < word)
          (λ x. (remaining w).jiffies + x.interval_ticks < word) (due w)
          (λ x q. omega (arith, q, now)) again) in
      subst
        (λ (r : ℕ × Wheel).
          total weight r.1 + total (at_tick (w.jiffies + 1) weight) w ≡ total weight w)
        (sym runs) (omega (arith, same, exact weight, kept weight))

-- Over `n` ticks no tick is beyond the counter.
abbrev pub Room : ℕ → Wheel → Type 0
Room zero w = Unit {0}
Room (suc n) w =
    (w.jiffies + 1 < word)
    × All (λ e. w.jiffies + 1 + e.interval_ticks < word) (due w)
    × Room n (tick inert w).1

-- Where callbacks leave the wheel alone, in a wheel as between two ticks: the one-shot timers that are
-- in the wheel after `n` ticks are those that expire later than the n-th tick, each as often as
-- before.
pub advance_pending :
    (n : ℕ) (w : Wheel)
    → IsSteady w
    → Room n w
    → (weight : Entry → ℕ) → OneShot weight
    → total weight (advance inert n w).1 ≡ total (after_tick (w.jiffies + n) weight) w
unfolding advance
advance_pending zero w v room weight once = omega (
  arith,
  nothing_due (up_to_tick w.jiffies weight) w.jiffies (λ e lt. ground (arith, lt)) v.on_time,
  total-add (up_to_tick w.jiffies weight) (after_tick w.jiffies weight) weight w
      (λ e. ground arith),
  total-cong (after_tick w.jiffies weight) (after_tick (w.jiffies + 0) weight) w
      (λ e. ground arith),
)
advance_pending (suc n) w v (fits, again, room) weight once =
    let (v', now, _) = tick-IsSteady inert inert-Behaves w v fits again in
    let later = after_tick ((tick inert w).1.jiffies + n) weight in
    let once' : OneShot later = λ e ne. (let z = once e ne in ground (arith, z)) in
    omega (
      arith,
      advance_pending n (tick inert w).1 v' room weight once,
      tick-total later once' w v fits again,
      total-cong (at_tick (w.jiffies + 1) later) (λ e. 0) w (λ e. ground (arith, now)),
      total-cong later (after_tick (w.jiffies + suc n) weight) w (λ e. ground (arith, now)),
      total-nil w,
    )
