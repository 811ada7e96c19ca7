-- ===== src/Timer/Epoll.antt =====
-- timer/include/epoll_timer.hpp and timer/src/epoll_timer.cpp: EpollTimer. Times are nanoseconds of
-- CLOCK_MONOTONIC; delays and intervals are not negative, and their sums stay in the range of int64_t.
-- What the clock, epoll and timerfd answer is a parameter, and so is what a callback does.
pub mod Cadence
pub mod Queue
pub mod Watched
pub mod Drain
pub mod Rearm
pub mod Fires
pub mod Calls
pub mod Numbered
pub mod Run
pub mod Times
use message_us_cld.Prelude.{
  ℕ, zero, suc, ◌+◌, ◌-◌, Bool, true, false, List, [], ◌∷◌, ◌||◌, ◌&&◌, not, ◌==◌, ltb, leb,
  if◌then◌else◌, Option, some, none, length, add64, Outcome, done, threw, ◌>>=◌,
}

pub record Entry : Type 0 where
  pub id : ℕ
  pub expiry_ns : ℕ
  pub interval_ns : ℕ
  pub cb : ℕ

pub record Stats : Type 0 where
  pub fired : ℕ
  pub cancelled : ℕ
  pub rearms : ℕ
  pub overruns : ℕ

-- `heap` is the priority queue, the entry of the least expiry first; `armed` is the time that the
-- timerfd was last set to.
pub record EpollTimer : Type 0 where
  pub heap : List Entry
  pub active : List (ℕ × Entry)
  pub armed : Option ℕ
  pub running : Bool
  pub next_id : ℕ
  pub stats : Stats

-- Whether epoll_create1, timerfd_create and epoll_ctl succeed.
pub record Setup : Type 0 where
  pub epoll_create : Bool
  pub timerfd_create : Bool
  pub epoll_ctl : Bool

-- The constructor, and how many descriptors it leaves open.
unfoldable pub make : Setup → Outcome EpollTimer × ℕ
make kernel =
    if not kernel.epoll_create
    then (threw, 0)
    else if not kernel.timerfd_create
    then (threw, 0)
    else if not kernel.epoll_ctl
    then (threw, 0)
    else (
      done (record {
        heap = [];
        active = [];
        armed = none;
        running = false;
        next_id = 1;
        stats = record { fired = 0; cancelled = 0; rearms = 0; overruns = 0 };
      }),
      2,
    )

-- Of entries with the same expiry the one that was pushed first stays first.
unfoldable pub push : Entry → List Entry → List Entry
push e [] = e ∷ []
push e (x ∷ xs) = if ltb e.expiry_ns x.expiry_ns then e ∷ x ∷ xs else x ∷ push e xs

-- The map from ids to entries: find, erase, and assignment.
unfoldable pub find : List (ℕ × Entry) → ℕ → Option Entry
find [] id = none
find ((i, e) ∷ es) id = if i == id then some e else find es id

unfoldable pub erase : List (ℕ × Entry) → ℕ → List (ℕ × Entry)
erase [] id = []
erase ((i, e) ∷ es) id = let rest = erase es id in if i == id then rest else (i, e) ∷ rest

abbrev pub assign : List (ℕ × Entry) → Entry → List (ℕ × Entry)
assign es e = (e.id, e) ∷ erase es e.id

-- Whether a heap entry is of a timer that is neither cancelled nor rescheduled.
unfoldable pub is_live : List (ℕ × Entry) → Entry → Bool
is_live active e = elim (find active e.id) [
  | none ↦ false
  | some held ↦ held.expiry_ns == e.expiry_ns
]

-- timerfd_settime with TFD_TIMER_ABSTIME, which may refuse the time.
unfoldable pub rearm_timerfd : (ℕ → Bool) → ℕ → EpollTimer → Outcome EpollTimer
rearm_timerfd settime expiry_ns t =
    if settime expiry_ns
    then done (record t {
      armed = some expiry_ns;
      stats = record (t.stats) { rearms = add64 t.stats.rearms 1 };
    })
    else threw

-- The common part of schedule and schedule_periodic, at the time `now`.
unfoldable pub add : (ℕ → Bool) → ℕ → EpollTimer → ℕ → ℕ → ℕ → Outcome (ℕ × EpollTimer)
add settime now t delay_ns interval_ns cb =
    let e : Entry = record {
      id = t.next_id;
      expiry_ns = now + delay_ns;
      interval_ns = interval_ns;
      cb = cb;
    } in
    let need_rearm : Bool = elim t.heap [
      | [] ↦ true
      | top ∷ rest ↦ ltb e.expiry_ns top.expiry_ns
    ] in
    let t' = record t {
      next_id = add64 t.next_id 1;
      active = assign t.active e;
      heap = push e t.heap;
    } in
    (if need_rearm then rearm_timerfd settime e.expiry_ns t' else done t') >>= λ u. done (e.id, u)

unfoldable pub schedule : (ℕ → Bool) → ℕ → EpollTimer → ℕ → ℕ → Outcome (ℕ × EpollTimer)
schedule settime now t delay_ns cb = add settime now t delay_ns 0 cb

unfoldable pub schedule_periodic : (ℕ → Bool) → ℕ → EpollTimer → ℕ → ℕ → Outcome (ℕ × EpollTimer)
schedule_periodic settime now t interval_ns cb = add settime now t interval_ns interval_ns cb

unfoldable pub cancel : EpollTimer → ℕ → Bool × EpollTimer
cancel t id = elim (find t.active id) [
  | none ↦ (false, t)
  | some e ↦ (
    true,
    record t {
      active = erase t.active id;
      stats = record (t.stats) { cancelled = add64 t.stats.cancelled 1 };
    },
  )
]

-- `while (e.expiry_ns <= now) e.expiry_ns += e.interval_ns`, for an interval that is not 0; each round
-- adds a nanosecond at least, so that now + 1 - expiry rounds are enough.
unfoldable pub catch_up : ℕ → ℕ → ℕ → ℕ → ℕ
catch_up zero now interval expiry = expiry
catch_up (suc fuel) now interval expiry =
    let next = catch_up fuel now interval (expiry + interval) in
    if leb expiry now then next else expiry

-- The next expiry of a periodic timer that was due at `expiry`.
unfoldable pub next_expiry : ℕ → ℕ → ℕ → ℕ
next_expiry now interval expiry =
    catch_up (now + 1 - (expiry + interval)) now interval (expiry + interval)

-- A round of the loop of drain_expired.
pub data Round : Type 0 where
  stops : Round
  skips : EpollTimer → Round
  fires : Entry → EpollTimer → Round

-- `callback cb` is what running a callback does to the timers.
module _ (callback : ℕ → EpollTimer → EpollTimer) (now : ℕ) where
  -- The callback of the entry on top, which was taken off, and its rescheduling.
  unfoldable pub fire_top : Entry → EpollTimer → EpollTimer
  fire_top e t =
      let t1 = callback e.cb (record t { active = erase t.active e.id }) in
      let t2 = record t1 { stats = record (t1.stats) { fired = add64 t1.stats.fired 1 } } in
      let again = record e { expiry_ns = next_expiry now e.interval_ns e.expiry_ns } in
      if ltb 0 e.interval_ns
      then record t2 { active = assign t2.active again; heap = push again t2.heap }
      else t2

  unfoldable pub round : EpollTimer → Round
  round t = elim t.heap [
    | [] ↦ stops
    | top ∷ rest ↦
        (if not (is_live t.active top)
          then skips (record t { heap = rest })
          else if ltb now top.expiry_ns
          then stops
          else fires top (fire_top top (record t { heap = rest })))
  ]

  -- The entries whose callbacks ran, in order; `none` when the fuel is over.
  unfoldable pub drain_loop : ℕ → EpollTimer → Option (List Entry × EpollTimer)
  drain_loop zero t = none
  drain_loop (suc fuel) t = elim (round t) [
    | stops ↦ some ([], t)
    | skips t' ↦ drain_loop fuel t'
    | fires e t' ↦ elim (drain_loop fuel t') [ none ↦ none | some (es, u) ↦ some (e ∷ es, u) ]
  ]

-- The second loop of drain_expired: stale entries go, and the timerfd is set for the first live one.
unfoldable pub live_part : List (ℕ × Entry) → List Entry → List Entry
live_part active [] = []
live_part active (top ∷ rest) =
    let next = live_part active rest in if is_live active top then top ∷ rest else next

unfoldable pub rearm_next : (ℕ → Bool) → EpollTimer → Outcome EpollTimer
rearm_next settime t =
    let t' = record t { heap = live_part t.active t.heap } in
    elim t'.heap [ [] ↦ done t' | top ∷ rest ↦ rearm_timerfd settime top.expiry_ns t' ]

-- The number of callbacks is the length of the list.
unfoldable pub drain_expired :
    (ℕ → EpollTimer → EpollTimer)
    → (ℕ → Bool)
    → ℕ
    → ℕ
    → EpollTimer
    → Option (List Entry × Outcome EpollTimer)
drain_expired callback settime fuel now t = elim (drain_loop callback now fuel t) [
  | none ↦ none
  | some (es, u) ↦ some (es, rearm_next settime u)
]

-- epoll_wait: interrupted, failed, timed out, or an event with what read gives of the counter.
pub data Wait : Type 0 where
  interrupted failed timed_out : Wait
  event : Option ℕ → Wait

unfoldable pub count_overruns : Option ℕ → EpollTimer → EpollTimer
count_overruns none t = t
count_overruns (some n) t =
    if ltb 1 n
    then record t { stats = record (t.stats) { overruns = add64 t.stats.overruns (n - 1) } }
    else t

unfoldable pub run_once :
    (ℕ → EpollTimer → EpollTimer)
    → (ℕ → Bool)
    → ℕ
    → ℕ
    → Wait
    → EpollTimer
    → Option (List Entry × Outcome EpollTimer)
run_once callback settime fuel now interrupted t = some ([], done t)
run_once callback settime fuel now failed t = some ([], threw)
run_once callback settime fuel now timed_out t = some ([], done t)
run_once callback settime fuel now (event counter) t =
    drain_expired callback settime fuel now (count_overruns counter t)
