-- ===== src/Timer/Wheel.antt =====
-- timer/include/timer_wheel.hpp: TimerWheel. The four arrays of slots are the list `levels`; the list
-- iterator of a Location is the position of the entry with that id. What a callback does to the wheel
-- is a parameter.
pub mod Slots
pub mod Cancel
pub mod Placed
pub mod Moves
pub mod Cascade
pub mod Turn
pub mod Due
pub mod Steady
pub mod Firing
pub mod New
pub mod Pending
pub mod OneShot
use message_us_cld.Prelude.{
  ℕ, zero, suc, ◌+◌, ◌-◌, ◌*◌, ◌/◌, ◌^◌, Bool, true, false, List, [], ◌∷◌, ◌++◌, ◌==◌, Option, some,
  none, if◌then◌else◌, not, map, ltb, length, get_or, set, replicate, bit_and, add64, sub64,
}

pub record Entry : Type 0 where
  pub id : ℕ
  pub expiry_tick : ℕ
  pub interval_ticks : ℕ
  pub cb : ℕ

pub record Location : Type 0 where
  pub level : ℕ
  pub slot : ℕ

pub record Stats : Type 0 where
  pub inserted : ℕ
  pub fired : ℕ
  pub cancelled : ℕ
  pub cascades : ℕ

pub record Wheel : Type 0 where
  pub levels : List (List (List Entry))
  pub entries : List (ℕ × Location)
  pub jiffies : ℕ
  pub tick_ns : ℕ
  pub next_id : ℕ
  pub stats : Stats

abbrev pub slot_counts : List ℕ
slot_counts = 256 ∷ 64 ∷ 64 ∷ 64 ∷ []

unfoldable pub new_wheel : ℕ → Wheel
new_wheel tick_duration_ns = record {
  levels = map (λ n. replicate n []) slot_counts;
  entries = [];
  jiffies = 0;
  tick_ns = tick_duration_ns;
  next_id = 1;
  stats = record { inserted = 0; fired = 0; cancelled = 0; cascades = 0 };
}

-- The map from ids to locations: find, erase, and assignment.
unfoldable pub find : List (ℕ × Location) → ℕ → Option Location
find [] id = none
find ((i, loc) ∷ es) id = if i == id then some loc else find es id

unfoldable pub erase : List (ℕ × Location) → ℕ → List (ℕ × Location)
erase [] id = []
erase ((i, loc) ∷ es) id = let rest = erase es id in if i == id then rest else (i, loc) ∷ rest

-- The entry of an id taken out of a slot.
unfoldable pub remove : List Entry → ℕ → List Entry
remove [] id = []
remove (e ∷ es) id = if e.id == id then es else e ∷ remove es id

unfoldable pub slot_at : Wheel → Location → List Entry
slot_at w loc = get_or (get_or w.levels loc.level []) loc.slot []

unfoldable pub set_slot : Wheel → Location → List Entry → Wheel
set_slot w loc es = record w {
  levels = set w.levels loc.level (set (get_or w.levels loc.level []) loc.slot es);
}

-- Level and slot of an expiry tick, by the ticks that remain.
unfoldable pub place : ℕ → ℕ → Location
place jiffies expiry =
    let remaining = sub64 expiry jiffies in
    if ltb remaining 256
    then record { level = 0; slot = bit_and expiry 255 }
    else if ltb remaining (256 * 64)
    then record { level = 1; slot = bit_and (expiry / 2 ^ 8) 63 }
    else if ltb remaining (256 * 64 * 64)
    then record { level = 2; slot = bit_and (expiry / 2 ^ 14) 63 }
    else record { level = 3; slot = bit_and (expiry / 2 ^ 20) 63 }

unfoldable pub insert : Wheel → Entry → Wheel
insert w e =
    let loc = place w.jiffies e.expiry_tick in
    let w' = set_slot w loc (slot_at w loc ++ (e ∷ [])) in
    record w' { entries = (e.id, loc) ∷ erase w.entries e.id }

abbrev pub at_least_one : ℕ → ℕ
at_least_one n = if n == 0 then 1 else n

unfoldable pub schedule : Wheel → ℕ → ℕ → ℕ × Wheel
schedule w delay_ticks cb =
    let e : Entry = record {
      id = w.next_id;
      expiry_tick = add64 w.jiffies (at_least_one delay_ticks);
      interval_ticks = 0;
      cb = cb;
    } in
    let w' = insert (record w { next_id = add64 w.next_id 1 }) e in
    (e.id, record w' { stats = record (w'.stats) { inserted = add64 w'.stats.inserted 1 } })

unfoldable pub schedule_periodic : Wheel → ℕ → ℕ → ℕ × Wheel
schedule_periodic w interval_ticks cb =
    let e : Entry = record {
      id = w.next_id;
      expiry_tick = add64 w.jiffies (at_least_one interval_ticks);
      interval_ticks = at_least_one interval_ticks;
      cb = cb;
    } in
    let w' = insert (record w { next_id = add64 w.next_id 1 }) e in
    (e.id, record w' { stats = record (w'.stats) { inserted = add64 w'.stats.inserted 1 } })

unfoldable pub cancel : Wheel → ℕ → Bool × Wheel
cancel w id = elim (find w.entries id) [
  | none ↦ (false, w)
  | some loc ↦ (
    true,
    record (set_slot w loc (remove (slot_at w loc) id)) {
      entries = erase w.entries id;
      stats = record (w.stats) { cancelled = add64 w.stats.cancelled 1 };
    },
  )
]

-- `callback cb` is what running a callback does to the wheel.
module _ (callback : ℕ → Wheel → Wheel) where
  -- The loop of fire_slot over the entries that were swapped out.
  unfoldable pub fire : List Entry → Wheel → ℕ × Wheel
  fire [] w = (0, w)
  fire (e ∷ es) w =
      let w1 = callback e.cb (record w { entries = erase w.entries e.id }) in
      let w2 = record w1 { stats = record (w1.stats) { fired = add64 w1.stats.fired 1 } } in
      let again = record e { expiry_tick = add64 w2.jiffies e.interval_ticks } in
      let (count, w3) = fire es (if e.interval_ticks == 0 then w2 else insert w2 again) in
      (count + 1, w3)

  unfoldable pub fire_slot : Wheel → Location → ℕ × Wheel
  fire_slot w loc = fire (slot_at w loc) (set_slot w loc [])

-- The loop of cascade over the entries that were swapped out.
unfoldable pub reinsert : List Entry → Wheel → Wheel
reinsert [] w = w
reinsert (e ∷ es) w = reinsert es (insert (record w { entries = erase w.entries e.id }) e)

unfoldable pub cascade_slot : Wheel → Location → Wheel
cascade_slot w loc =
    let w' = reinsert (slot_at w loc) (set_slot w loc []) in
    record w' {
      stats = record (w'.stats) { cascades = add64 w'.stats.cascades (length (slot_at w loc)) };
    }

-- The slot of a level at the current tick.
unfoldable pub current : Wheel → ℕ → ℕ → Location
current w level shift = record { level = level; slot = bit_and (w.jiffies / 2 ^ shift) 63 }

unfoldable pub cascade : Wheel → ℕ → Wheel
cascade w from_level =
    if from_level == 1
    then cascade_slot w (current w 1 8)
    else if from_level == 2
    then cascade_slot w (current w 2 14)
    else if from_level == 3
    then cascade_slot w (current w 3 20)
    else w

-- The cascades of a tick, from the boundaries that it crosses.
unfoldable pub cascades : Wheel → Wheel
cascades w =
    if not (bit_and w.jiffies 255 == 0)
    then w
    else if not (bit_and w.jiffies (256 * 64 - 1) == 0)
    then cascade w 1
    else if not (bit_and w.jiffies (256 * 64 * 64 - 1) == 0)
    then cascade (cascade w 1) 2
    else cascade (cascade (cascade w 1) 2) 3

module _ (callback : ℕ → Wheel → Wheel) where
  unfoldable pub tick : Wheel → ℕ × Wheel
  tick w =
      let w' = cascades (record w { jiffies = add64 w.jiffies 1 }) in
      fire_slot callback w' (record { level = 0; slot = bit_and w'.jiffies 255 })

  unfoldable pub advance : ℕ → Wheel → ℕ × Wheel
  advance zero w = (0, w)
  advance (suc n) w =
      let (fired, w') = tick w in let (more, w'') = advance n w' in (fired + more, w'')
