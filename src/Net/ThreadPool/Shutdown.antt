-- ===== src/Net/ThreadPool/Shutdown.antt =====
-- ThreadPool::shutdown: what the workers still do, and that they leave
-- (tcp_server/src/thread_pool.hpp).
use message_us_cld.Prelude.{
  ℕ, suc, ◌+◌, ◌*◌, ◌≤◌, ◌≡◌, refl, ap, ◌∙◌, arith, true, false, List, [], ◌∷◌, ◌++◌, map, some,
  ◌⊎◌, inl, inr, get_or, set, length, Bool-cases,
}
use message_us_cld.Net.ThreadPool.{
  Worker, waits, left, runs, ThreadPool, Action, shuts_down, notifies_all, wakes, returns, wake,
  sleeps, rouse, shutdown, step, run, joined,
}
use message_us_cld.Net.ThreadPool.Order.{run-split, sum_by-rouse}
use message_us_cld.Net.ThreadPool.Work.{
  load, work, is_worker_step, only_worker_steps, asleep, step-Less, run-work,
}

load-rouse : (w : Worker) → load (rouse w) ≡ load w
load-rouse waits = refl
load-rouse sleeps = refl
load-rouse left = refl
load-rouse (runs t) = refl

rouse-asleep : (ws : List Worker) → asleep (map rouse ws) ≡ 0
rouse-asleep [] = refl
rouse-asleep (waits ∷ ws) = omega (arith, rouse-asleep ws)
rouse-asleep (sleeps ∷ ws) = omega (arith, rouse-asleep ws)
rouse-asleep (left ∷ ws) = omega (arith, rouse-asleep ws)
rouse-asleep (runs t ∷ ws) = omega (arith, rouse-asleep ws)

-- The bound on the steps, `stop`, and nobody sleeps.
abbrev Awake : ℕ → ThreadPool → ThreadPool → Type 0
Awake steps pool q = (steps + work q ≤ work pool) × (q.stop ≡ true) × (asleep q.workers ≡ 0)

notified-Awake :
    (joining : List Action) (pool q : ThreadPool) (started : List ℕ)
    → only_worker_steps joining ≡ true
    → pool.stop ≡ true
    → run (notifies_all ∷ joining) pool ≡ some (started, q)
    → Awake (length joining) pool q
unfolding step
notified-Awake joining pool q started w stop e =
    let (first, p, more, goes, rest, split) = run-split notifies_all joining pool q started e in
    let same : p ≡ record pool { workers = map rouse pool.workers } = ground (arith, goes) in
    let (bound, kept, up) = run-work joining p q more w (ap (λ r. r.stop) same ∙ stop) rest in
    let nobody = ap (λ r. asleep r.workers) same ∙ rouse-asleep pool.workers in
    let as_much : work p ≡ work pool =
      ap work same
      ∙ ap (λ n. 2 * length pool.tasks + n) (sum_by-rouse load load-rouse pool.workers) in
    (omega (arith, bound, as_much), kept, omega (arith, up, nobody))

between-Awake :
    (between joining : List Action) (pool q : ThreadPool) (started : List ℕ)
    → only_worker_steps between ≡ true
    → only_worker_steps joining ≡ true
    → pool.stop ≡ true
    → run (between ++ (notifies_all ∷ joining)) pool ≡ some (started, q)
    → Awake (length between + length joining) pool q
between-Awake [] joining pool q started b w stop e =
    let (bound, kept, nobody) = notified-Awake joining pool q started w stop e in
    (omega (arith, bound), kept, nobody)
between-Awake (a ∷ between) joining pool q started b w stop e =
    let (first, p, more, goes, rest, split) =
      run-split a (between ++ (notifies_all ∷ joining)) pool q started e in
    let (less, stopped, up) = step-Less a pool p first (ground (arith, b)) stop goes in
    let (bound, kept, nobody) =
      between-Awake between joining p q more (ground (arith, b)) w stopped rest in
    (omega (arith, less, bound), kept, nobody)

shutdown-Awake :
    (between joining : List Action) (pool q : ThreadPool) (started : List ℕ)
    → only_worker_steps between ≡ true
    → only_worker_steps joining ≡ true
    → run (shutdown between joining) pool ≡ some (started, q)
    → Awake (length between + length joining) pool q
unfolding shutdown step
shutdown-Awake between joining pool q started b w e =
    let (first, p, more, goes, rest, split) =
      run-split shuts_down (between ++ (notifies_all ∷ joining)) pool q started e in
    let same : p ≡ record pool { stop = true } = ground (arith, goes) in
    let (bound, kept, nobody) =
      between-Awake between joining p q more b w (ap (λ r. r.stop) same) rest in
    let as_much : work p ≡ work pool = ap work same in (omega (arith, bound, as_much), kept, nobody)

-- A worker that has not left.
someone :
    (ws : List Worker)
    → joined ws ≡ false
    → asleep ws ≡ 0
    → (i : ℕ) × ((get_or ws i left ≡ waits) ⊎ ((t : ℕ) × (get_or ws i left ≡ runs t)))
unfolding joined
someone [] e up = absurd (ground (arith, e))
someone (sleeps ∷ ws) e up = absurd (omega (arith, up))
someone (waits ∷ ws) e up = (0, inl refl)
someone (runs t ∷ ws) e up = (0, inr (t, refl))
someone (left ∷ ws) e up = (let (i, w) = someone ws e (omega (arith, up)) in (suc i, w))

abbrev pub CanGo : ThreadPool → Type 0
CanGo pool =
    (a : Action) × (is_worker_step a ≡ true)
    × (first : List ℕ) × (q : ThreadPool) × (step a pool ≡ some (first, q))

wake_goes :
    (i : ℕ) (pool : ThreadPool) (ts : List ℕ)
    → pool.tasks ≡ ts
    → pool.stop ≡ true
    → (first : List ℕ) × (q : ThreadPool) × (wake i pool ≡ some (first, q))
unfolding wake
wake_goes i pool [] h stop =
    ([], record pool { workers = set pool.workers i left }, ground (arith, h, stop))
wake_goes i pool (t ∷ ts) h stop =
    (t ∷ [], record pool { workers = set pool.workers i (runs t); tasks = ts }, ground (arith, h))

goes_on :
    (pool : ThreadPool)
    → pool.stop ≡ true
    → asleep pool.workers ≡ 0
    → joined pool.workers ≡ false
    → CanGo pool
unfolding step
goes_on pool stop up busy =
    let (i, w) = someone pool.workers busy up in
    elim w [
      | inl waiting ↦
          let (first, q, goes) = wake_goes i pool pool.tasks refl stop in
          (wakes i, refl, first, q, ground (arith, waiting, goes))
      | inr (t, running) ↦ (
        returns i,
        refl,
        [],
        record pool { workers = set pool.workers i waits },
        ground (arith, running),
      )
    ]

-- In a call of shutdown on any pool, where nothing else than the workers goes on from its first
-- section on: in whatever order the workers take their steps, before and after the notify_all, they
-- take no more than the bound that the queue and the workers give, and as long as a worker has not
-- left, some worker can take a step after the notify_all, since none of them sleeps any more. So the
-- joins of shutdown return, provided that the tasks return.
pub run-CanGo :
    (between joining : List Action) (pool q : ThreadPool) (started : List ℕ)
    → only_worker_steps between ≡ true
    → only_worker_steps joining ≡ true
    → run (shutdown between joining) pool ≡ some (started, q)
    → (length between + length joining + work q ≤ work pool) × ((joined q.workers ≡ true) ⊎ CanGo q)
run-CanGo between joining pool q started b only e =
    let (bound, stop, nobody) = shutdown-Awake between joining pool q started b only e in
    (
      bound,
      elim (Bool-cases (joined q.workers)) [
        | inl all ↦ inl all
        | inr busy ↦ inr (goes_on q stop nobody busy)
      ],
    )
