-- ===== src/Timer/Wheel/Steady.antt =====
-- Every operation leaves the wheel as it has to be between two ticks.
use native.Mathlib.Decide.{ℕ_discrete, dec_lt}
use message_us_cld.Prelude.{
  ℕ, ◌+◌, ◌<◌, ◌≡◌, refl, sym, ap, ◌∙◌, subst, arith, List, [], ◌∷◌, Option, some, none, word,
  add64, get_or, set, set-beyond,
}
use message_us_cld.Timer.Wheel.{
  Entry, Location, Stats, Wheel, slot_at, set_slot, slot_counts, find, erase, remove, insert,
  at_least_one, schedule, schedule_periodic, cancel,
}
use message_us_cld.Timer.Wheel.Slots.{set_slot-IsShaped}
use message_us_cld.Timer.Wheel.Cancel.{set-get_or}
use message_us_cld.Timer.Wheel.Placed.{Placed, place-Placed, All}
use message_us_cld.Timer.Wheel.Moves.{GoodAt, insert-OnTime, set_slot-placed}
use message_us_cld.Timer.Wheel.Due.{resting, IsSteady}

module _ {w : Wheel} (v : IsSteady w) where
  -- A timer that expires later, and before the counter ends, may be inserted.
  good :
      (e : Entry)
      → w.jiffies < e.expiry_tick
      → e.expiry_tick < word
      → GoodAt w.jiffies (resting w.jiffies) e
  good e lt fits =
      place-Placed w.jiffies (resting w.jiffies) e.expiry_tick v.in_word fits (omega arith)
        (omega arith) (omega arith) (λ far. refl) (λ far. refl) (λ far. refl)

  pub insert-IsSteady :
      (e : Entry) → w.jiffies < e.expiry_tick → e.expiry_tick < word → IsSteady (insert w e)
  unfolding insert set_slot
  insert-IsSteady e lt fits = record {
    on_time = insert-OnTime w.jiffies (resting w.jiffies) v.on_time e (good e lt fits);
    in_word = v.in_word;
  }

  -- The locations, the counts and the next id play no part.
  pub entries-IsSteady :
      (es : List (ℕ × Location)) (n : ℕ) (st : Stats)
      → IsSteady (record w { entries = es; next_id = n; stats = st })
  unfolding slot_at
  entries-IsSteady es n st = record {
    on_time = record {
      shaped = record {
        level_count = v.on_time.shaped.level_count;
        slot_count = v.on_time.shaped.slot_count;
      };
      placed = v.on_time.placed;
      now = refl;
    };
    in_word = v.in_word;
  }

  -- Fewer entries in a slot.
  pub set_slot-IsSteady :
      (loc : Location) (es : List Entry)
      → ((P : Entry → Type 0) → All P (slot_at w loc) → All P es)
      → IsSteady (set_slot w loc es)
  unfolding set_slot slot_at
  set_slot-IsSteady loc es fewer = elim (dec_lt loc.level 4) [
    | no beyond ↦ unchanged (
        set-beyond w.levels loc.level (set (get_or w.levels loc.level []) loc.slot es)
          (omega (arith, v.on_time.shaped.level_count, beyond)))
    | yes level ↦ elim (dec_lt loc.slot (get_or slot_counts loc.level 0)) [
      | no beyond ↦ unchanged (
          ap (set w.levels loc.level) (
            set-beyond (get_or w.levels loc.level []) loc.slot es
              (omega (arith, v.on_time.shaped.slot_count loc.level level, beyond)))
          ∙ set-get_or w.levels loc.level [])
      | yes slot ↦ record {
        on_time = record {
          shaped = set_slot-IsShaped v.on_time.shaped (level, slot) es;
          placed =
              set_slot-placed v.on_time.shaped
                (λ l x. Placed (resting w.jiffies) l.level l.slot x.expiry_tick)
                (λ l x. Placed (resting w.jiffies) l.level l.slot x.expiry_tick) loc (level, slot)
                es v.on_time.placed (λ other ne x p. p)
                (fewer (λ x. Placed (resting w.jiffies) loc.level loc.slot x.expiry_tick)
                  (v.on_time.placed loc));
          now = refl;
        };
        in_word = v.in_word;
      }
    ]
  ]
    where
      unchanged :
          set w.levels loc.level (set (get_or w.levels loc.level []) loc.slot es) ≡ w.levels
          → IsSteady (record w {
            levels = set w.levels loc.level (set (get_or w.levels loc.level []) loc.slot es);
          })
      unchanged same = subst (λ ls. IsSteady (record w { levels = ls })) (sym same) v

remove-All : (P : Entry → Type 0) (es : List Entry) (id : ℕ) → All P es → All P (remove es id)
unfolding remove
remove-All P [] id p = tt
remove-All P (e ∷ es) id (p, ps) = elim (ℕ_discrete e.id id) [
  | yes same ↦ subst (All P) (ground (arith, same)) ps
  | no ne ↦ subst (All P) {x = e ∷ remove es id} (ground (arith, ne)) (p, remove-All P es id ps)
]

at_least_one-pos : (n : ℕ) → 0 < at_least_one n
at_least_one-pos n = ground arith

module _ {w : Wheel} (v : IsSteady w) where
  timed-IsSteady :
      (delay interval cb : ℕ)
      → w.jiffies + at_least_one delay < word
      → let timer : Entry = record {
        id = w.next_id;
        expiry_tick = add64 w.jiffies (at_least_one delay);
        interval_ticks = interval;
        cb = cb;
      } in
        IsSteady (insert (record w { next_id = add64 w.next_id 1 }) timer)
  timed-IsSteady delay interval cb fits =
      insert-IsSteady (entries-IsSteady v w.entries (add64 w.next_id 1) w.stats)
        (record {
          id = w.next_id;
          expiry_tick = add64 w.jiffies (at_least_one delay);
          interval_ticks = interval;
          cb = cb;
        })
        (omega (arith, fits, at_least_one-pos delay)) (omega (arith, fits))

  pub schedule-IsSteady :
      (delay cb : ℕ) → w.jiffies + at_least_one delay < word → IsSteady (schedule w delay cb).1
  unfolding schedule
  schedule-IsSteady delay cb fits =
      let inserted =
        insert (record w { next_id = add64 w.next_id 1 })
          (record {
            id = w.next_id;
            expiry_tick = add64 w.jiffies (at_least_one delay);
            interval_ticks = 0;
            cb = cb;
          }) in
      entries-IsSteady (timed-IsSteady delay 0 cb fits) inserted.entries inserted.next_id
        (record (inserted.stats) { inserted = add64 inserted.stats.inserted 1 })

  pub schedule_periodic-IsSteady :
      (interval cb : ℕ)
      → w.jiffies + at_least_one interval < word
      → IsSteady (schedule_periodic w interval cb).1
  unfolding schedule_periodic
  schedule_periodic-IsSteady interval cb fits =
      let inserted =
        insert (record w { next_id = add64 w.next_id 1 })
          (record {
            id = w.next_id;
            expiry_tick = add64 w.jiffies (at_least_one interval);
            interval_ticks = at_least_one interval;
            cb = cb;
          }) in
      entries-IsSteady (timed-IsSteady interval (at_least_one interval) cb fits) inserted.entries
        inserted.next_id (record (inserted.stats) { inserted = add64 inserted.stats.inserted 1 })

  cancelled :
      (id : ℕ) (found : Option Location) → find w.entries id ≡ found → IsSteady (cancel w id).1
  unfolding cancel set_slot
  cancelled id none e = rw (e, cancel) v
  cancelled id (some loc) e =
      rw (e, cancel)
        (entries-IsSteady
          (set_slot-IsSteady v loc (remove (slot_at w loc) id)
            (λ P p. remove-All P (slot_at w loc) id p))
          (erase w.entries id) w.next_id
          (record (w.stats) { cancelled = add64 w.stats.cancelled 1 }))

  pub cancel-IsSteady : (id : ℕ) → IsSteady (cancel w id).1
  cancel-IsSteady id = cancelled id (find w.entries id) refl
