-- ===== src/Net/ThreadPool/Work.antt =====
-- What the workers of a ThreadPool still have to do (tcp_server/src/thread_pool.hpp).
use message_us_cld.Prelude.{
  ℕ, zero, suc, ◌+◌, ◌*◌, ◌≤◌, ◌<◌, ◌≡◌, refl, sym, ap, ◌∙◌, arith, Bool, true, false, List, [],
  ◌∷◌, some, get_or, set, ◌&&◌, length, sum_by, sum_by-set,
}
use message_us_cld.Net.ThreadPool.{
  Worker, waits, left, runs, ThreadPool, Action, submits, shuts_down, notifies_all, notifies_one,
  wakes, returns, wake, sleeps, step, run,
}
use message_us_cld.Net.ThreadPool.Order.{run-split}

-- The sections that a worker still has to take at least, without counting new tasks.
abbrev pub load : Worker → ℕ
load waits = 1
load sleeps = 1
load (runs task) = 2
load left = 0

abbrev pub work : ThreadPool → ℕ
work pool = 2 * length pool.tasks + sum_by load pool.workers

abbrev pub is_worker_step : Action → Bool
is_worker_step (submits task) = false
is_worker_step shuts_down = false
is_worker_step notifies_all = false
is_worker_step (notifies_one i) = false
is_worker_step (wakes i) = true
is_worker_step (returns i) = true

abbrev pub only_worker_steps : List Action → Bool
only_worker_steps [] = true
only_worker_steps (a ∷ acts) = is_worker_step a && only_worker_steps acts

in_range :
    (ws : List Worker) (i : ℕ) (w : Worker) → get_or ws i left ≡ w → 0 < load w → i < length ws
in_range [] i w e pos = absurd (ground (arith, e, pos))
in_range (x ∷ ws) zero w e pos = omega arith
in_range (x ∷ ws) (suc i) w e pos = omega (arith, in_range ws i w e pos)

set-load :
    (ws : List Worker) (i : ℕ) (w v : Worker)
    → get_or ws i left ≡ w
    → 0 < load w
    → sum_by load (set ws i v) + load w ≡ sum_by load ws + load v
set-load ws i w v e pos =
    ap (λ x. sum_by load (set ws i v) + load x) (sym e)
    ∙ sum_by-set load ws i v left (in_range ws i w e pos)

abbrev pub is_asleep : Worker → ℕ
is_asleep waits = 0
is_asleep sleeps = 1
is_asleep left = 0
is_asleep (runs task) = 0

-- The number of workers that sleep.
abbrev pub asleep : List Worker → ℕ
asleep = sum_by is_asleep

set-asleep :
    (ws : List Worker) (i : ℕ) (v : Worker) → is_asleep v ≡ 0 → asleep (set ws i v) ≤ asleep ws
set-asleep [] i v up = omega arith
set-asleep (w ∷ ws) zero v up = omega (arith, up)
set-asleep (w ∷ ws) (suc i) v up = omega (arith, set-asleep ws i v up)

-- A section of a worker after `stop` was set makes the work less and puts nobody to sleep.
abbrev pub Less : ThreadPool → ThreadPool → Type 0
Less pool q = (work q + 1 ≤ work pool) × (q.stop ≡ true) × (asleep q.workers ≤ asleep pool.workers)

wake-Less :
    (i : ℕ) (pool q : ThreadPool) (first ts : List ℕ)
    → pool.stop ≡ true
    → get_or pool.workers i left ≡ waits
    → pool.tasks ≡ ts
    → wake i pool ≡ some (first, q)
    → Less pool q
unfolding wake
wake-Less i pool q first [] stop w h e =
    let less = set-load pool.workers i waits left w (omega arith) in
    let up = set-asleep pool.workers i left refl in ground (arith, h, e, less, stop, up)
wake-Less i pool q first (t ∷ ts) stop w h e =
    let less = set-load pool.workers i waits (runs t) w (omega arith) in
    let up = set-asleep pool.workers i (runs t) refl in ground (arith, h, e, less, stop, up)

wakes-Less :
    (i : ℕ) (w : Worker) (pool q : ThreadPool) (first : List ℕ)
    → pool.stop ≡ true
    → get_or pool.workers i left ≡ w
    → step (wakes i) pool ≡ some (first, q)
    → Less pool q
unfolding step
wakes-Less i waits pool q first stop h e =
    wake-Less i pool q first pool.tasks stop h refl (ground (arith, h, e))
wakes-Less i sleeps pool q first stop h e = absurd (ground (arith, h, e))
wakes-Less i left pool q first stop h e = absurd (ground (arith, h, e))
wakes-Less i (runs t) pool q first stop h e = absurd (ground (arith, h, e))

returns-Less :
    (i : ℕ) (w : Worker) (pool q : ThreadPool) (first : List ℕ)
    → pool.stop ≡ true
    → get_or pool.workers i left ≡ w
    → step (returns i) pool ≡ some (first, q)
    → Less pool q
unfolding step
returns-Less i waits pool q first stop h e = absurd (ground (arith, h, e))
returns-Less i sleeps pool q first stop h e = absurd (ground (arith, h, e))
returns-Less i left pool q first stop h e = absurd (ground (arith, h, e))
returns-Less i (runs t) pool q first stop h e =
    let less = set-load pool.workers i (runs t) waits h (omega arith) in
    let up = set-asleep pool.workers i waits refl in ground (arith, h, e, less, stop, up)

pub step-Less :
    (a : Action) (pool q : ThreadPool) (first : List ℕ)
    → is_worker_step a ≡ true
    → pool.stop ≡ true
    → step a pool ≡ some (first, q)
    → Less pool q
step-Less (submits t) pool q first w stop e = absurd (ground (arith, w))
step-Less shuts_down pool q first w stop e = absurd (ground (arith, w))
step-Less notifies_all pool q first w stop e = absurd (ground (arith, w))
step-Less (notifies_one i) pool q first w stop e = absurd (ground (arith, w))
step-Less (wakes i) pool q first w stop e =
    wakes-Less i (get_or pool.workers i left) pool q first stop refl e
step-Less (returns i) pool q first w stop e =
    returns-Less i (get_or pool.workers i left) pool q first stop refl e

pub run-work :
    (acts : List Action) (pool q : ThreadPool) (started : List ℕ)
    → only_worker_steps acts ≡ true
    → pool.stop ≡ true
    → run acts pool ≡ some (started, q)
    → (length acts + work q ≤ work pool)
      × (q.stop ≡ true)
      × (asleep q.workers ≤ asleep pool.workers)
unfolding run
run-work [] pool q started w stop e = ground (arith, e, stop)
run-work (a ∷ acts) pool q started w stop e =
    let (first, p, more, goes, rest, split) = run-split a acts pool q started e in
    let (less, stopped, up) = step-Less a pool p first (ground (arith, w)) stop goes in
    let (ih, kept, up') = run-work acts p q more (ground (arith, w)) stopped rest in
    (omega (arith, less, ih), kept, omega (arith, up, up'))
