-- ===== src/Timer/Wheel/Cancel.antt =====
-- A timer is put into a slot that its level has, and cancelling it takes it out again.
use native.Mathlib.Decide.{dec_lt, ℕ_discrete}
use native.Mathlib.Nat.{mod-lt, one-le-pow}
use message_us_cld.Prelude.{
  ℕ, zero, suc, ◌-◌, ◌*◌, ◌/◌, ◌^◌, ◌<◌, ◌≡◌, ◌≢◌, refl, ap, ap₂, ◌∙◌, arith, true, List, [], ◌∷◌,
  ◌++◌, some, none, length, get_or, set, bit_and, bit_and_mask, add64, sub64, get_or-set_self,
}
use message_us_cld.Timer.Wheel.{
  Entry, Location, Wheel, slot_counts, find, erase, remove, slot_at, set_slot, place, insert,
  schedule, cancel, Stats, at_least_one, schedule_periodic,
}
use message_us_cld.Timer.Wheel.Slots.{slot_at-set_slot}

pub mask-lt : (k x : ℕ) → bit_and x (2 ^ k - 1) < 2 ^ k
mask-lt k x = omega (arith, bit_and_mask k x, mod-lt x {m = 2 ^ k} (one-le-pow k 2 (omega arith)))

-- The level and the slot of a timer are among the four levels and the slots that the level has, for
-- any current tick and any expiry tick.
pub place-in_range :
    (jiffies expiry : ℕ)
    → ((place jiffies expiry).level < 4)
      × ((place jiffies expiry).slot < get_or slot_counts (place jiffies expiry).level 0)
unfolding place
place-in_range jiffies expiry = elim (dec_lt (sub64 expiry jiffies) 256) [
  | yes soon ↦ ground (arith, soon, mask-lt 8 expiry)
  | no later ↦ elim (dec_lt (sub64 expiry jiffies) (256 * 64)) [
    | yes l1 ↦ ground (arith, later, l1, mask-lt 6 (expiry / 2 ^ 8))
    | no later1 ↦ elim (dec_lt (sub64 expiry jiffies) (256 * 64 * 64)) [
      | yes l2 ↦ ground (arith, later, later1, l2, mask-lt 6 (expiry / 2 ^ 14))
      | no l3 ↦ ground (arith, later, later1, l3, mask-lt 6 (expiry / 2 ^ 20))
    ]
  ]
]

-- Writing twice, and writing what is there.
set-set : {A : Type 0} (xs : List A) (i : ℕ) (v w : A) → set (set xs i v) i w ≡ set xs i w
set-set [] i v w = refl
set-set (x ∷ xs) zero v w = refl
set-set (x ∷ xs) (suc i) v w = ap (λ t. x ∷ t) (set-set xs i v w)

pub set-get_or : {A : Type 0} (xs : List A) (i : ℕ) (d : A) → set xs i (get_or xs i d) ≡ xs
set-get_or [] i d = refl
set-get_or (x ∷ xs) zero d = refl
set-get_or (x ∷ xs) (suc i) d = ap (λ t. x ∷ t) (set-get_or xs i d)

-- No entry of the slot has the id.
abbrev pub Absent : List Entry → ℕ → Type 0
Absent [] id = Unit {0}
Absent (e ∷ es) id = (e.id ≢ id) × Absent es id

remove-append : (es : List Entry) (e : Entry) → Absent es e.id → remove (es ++ (e ∷ [])) e.id ≡ es
unfolding remove
remove-append [] e a = ground arith
remove-append (x ∷ es) e (ne, a) = let rest = remove-append es e a in ground (arith, ne, rest)

erase-absent : (es : List (ℕ × Location)) (id : ℕ) → find es id ≡ none → erase es id ≡ es
unfolding find erase
erase-absent [] id e = refl
erase-absent ((i, loc) ∷ es) id e = elim (ℕ_discrete i id) [
  | yes same ↦ absurd (ground (arith, same, e))
  | no ne ↦ (let rest = erase-absent es id (ground (arith, ne, e)) in ground (arith, ne, rest))
]

-- Putting back what was there undoes a write.
undo :
    (w : Wheel) (loc : Location) (es : List Entry)
    → loc.level < length w.levels
    → (set_slot (set_slot w loc es) loc (slot_at w loc)).levels ≡ w.levels
unfolding slot_at set_slot
undo w loc es level =
    set-set w.levels loc.level (set (get_or w.levels loc.level []) loc.slot es) (
      set
        (get_or (set w.levels loc.level (set (get_or w.levels loc.level []) loc.slot es)) loc.level
          [])
        loc.slot (get_or (get_or w.levels loc.level []) loc.slot []))
    ∙ ap
        (λ ss.
          set w.levels loc.level
            (set ss loc.slot (get_or (get_or w.levels loc.level []) loc.slot [])))
        (get_or-set_self w.levels loc.level (set (get_or w.levels loc.level []) loc.slot es) []
          level)
    ∙ ap (set w.levels loc.level) (
        set-set (get_or w.levels loc.level []) loc.slot es
          (get_or (get_or w.levels loc.level []) loc.slot [])
        ∙ set-get_or (get_or w.levels loc.level []) loc.slot [])
    ∙ set-get_or w.levels loc.level []

-- The slots are as many as the arrays have, and the next id is in use nowhere.
pub record IsReady (w : Wheel) : Type 0 where
  pub level_count : length w.levels ≡ 4
  pub slot_count : (l : ℕ) → l < 4 → length (get_or w.levels l []) ≡ get_or slot_counts l 0
  pub unused : (loc : Location) → Absent (slot_at w loc) w.next_id
  pub unknown : find w.entries w.next_id ≡ none

module _ (w : Wheel) (v : IsReady w) (expiry interval cb : ℕ) where
  abbrev timer : Entry
  timer = record { id = w.next_id; expiry_tick = expiry; interval_ticks = interval; cb = cb }

  abbrev home : Location
  home = place w.jiffies expiry

  abbrev counted : Wheel
  counted = record w { next_id = add64 w.next_id 1 }

  level-lt : home.level < length w.levels
  level-lt = omega (arith, v.level_count, (place-in_range w.jiffies expiry).0)

  slot-lt : home.slot < length (get_or w.levels home.level [])
  slot-lt = omega (
    arith,
    v.slot_count home.level (place-in_range w.jiffies expiry).0,
    (place-in_range w.jiffies expiry).1,
  )

  found : find (insert counted timer).entries w.next_id ≡ some home
  unfolding insert find
  found = ground arith

  emptied : remove (slot_at (insert counted timer) home) w.next_id ≡ slot_at w home
  unfolding insert slot_at
  emptied =
      ap (λ es. remove es w.next_id)
        (slot_at-set_slot counted home (slot_at counted home ++ (timer ∷ [])) level-lt slot-lt)
      ∙ remove-append (slot_at w home) timer (v.unused home)

  erase_head :
      (es : List (ℕ × Location)) → erase ((w.next_id, home) ∷ es) w.next_id ≡ erase es w.next_id
  unfolding erase
  erase_head es = ground arith

  forgotten : erase (insert counted timer).entries w.next_id ≡ w.entries
  unfolding insert
  forgotten =
      erase_head (erase w.entries w.next_id)
      ∙ ap (λ es. erase es w.next_id) (erase-absent w.entries w.next_id v.unknown)
      ∙ erase-absent w.entries w.next_id v.unknown

  restored :
      (set_slot
        (insert counted timer)
        home
        (remove (slot_at (insert counted timer) home) w.next_id)).levels
      ≡ w.levels
  unfolding insert slot_at set_slot
  restored =
      ap (λ es. (set_slot (insert counted timer) home es).levels) emptied
      ∙ undo counted home (slot_at w home ++ (timer ∷ [])) level-lt

  -- Cancelling what was inserted under the next id, whatever its times.
  cancel-insert :
      (stats : Stats)
      → cancel (record (insert counted timer) { stats = stats }) w.next_id
        ≡ (true, record counted { stats = record stats { cancelled = add64 stats.cancelled 1 } })
  unfolding cancel insert slot_at set_slot
  cancel-insert stats =
      rw (found, cancel)
        (ap₂
          (λ ls es. (
            true,
            record counted {
              levels = ls;
              entries = es;
              stats = record stats { cancelled = add64 stats.cancelled 1 };
            },
          ))
          restored forgotten)

-- In a wheel whose arrays have their slots and where the next id is in use nowhere, cancelling a
-- one-shot timer that was just scheduled succeeds and leaves the wheel as it was, but for the next id
-- and the counts of inserted and cancelled timers, which are one more.
pub cancel-schedule :
    (w : Wheel)
    → IsReady w
    → (delay cb : ℕ)
    → cancel (schedule w delay cb).1 (schedule w delay cb).0 ≡ (
      true,
      record w {
        next_id = add64 w.next_id 1;
        stats = record (w.stats) {
          inserted = add64 w.stats.inserted 1;
          cancelled = add64 w.stats.cancelled 1;
        };
      },
    )
unfolding schedule insert set_slot
cancel-schedule w v delay cb =
    cancel-insert w v (add64 w.jiffies (at_least_one delay)) 0 cb
      (record (w.stats) { inserted = add64 w.stats.inserted 1 })

-- In a wheel whose arrays have their slots and where the next id is in use nowhere, cancelling a
-- periodic timer that was just scheduled succeeds and leaves the wheel
-- as it was, but for the next id and the counts of inserted and cancelled timers, which are one more.
pub cancel-schedule_periodic :
    (w : Wheel)
    → IsReady w
    → (interval cb : ℕ)
    → cancel (schedule_periodic w interval cb).1 (schedule_periodic w interval cb).0 ≡ (
      true,
      record w {
        next_id = add64 w.next_id 1;
        stats = record (w.stats) {
          inserted = add64 w.stats.inserted 1;
          cancelled = add64 w.stats.cancelled 1;
        };
      },
    )
unfolding schedule_periodic insert set_slot
cancel-schedule_periodic w v interval cb =
    cancel-insert w v (add64 w.jiffies (at_least_one interval)) (at_least_one interval) cb
      (record (w.stats) { inserted = add64 w.stats.inserted 1 })
