-- ===== src/Net/ThreadPool.antt =====
-- tcp_server/src/thread_pool.hpp: ThreadPool, as the steps that its callers and its workers take. A
-- section under the mutex is one step; which thread takes the next step is not determined.
pub mod Order
pub mod Work
pub mod Shutdown
pub mod Finished
use message_us_cld.Prelude.{
  ℕ, zero, suc, ◌-◌, Bool, true, false, List, [], ◌∷◌, ◌++◌, Option, some, none, if◌then◌else◌,
  get_or, set, replicate, map,
}

-- A worker thread is about to test the condition of `cv_.wait` with the lock, sleeps in `cv_.wait`
-- until it is notified, runs a task, or has left worker_loop. A task is a number.
pub data Worker : Type 0 where
  waits sleeps left : Worker
  runs : ℕ → Worker

pub record ThreadPool : Type 0 where
  pub workers : List Worker
  pub tasks : List ℕ
  pub stop : Bool

unfoldable pub make : ℕ → ThreadPool
make num_threads = record { workers = replicate num_threads waits; tasks = []; stop = false }

-- The section of submit under the lock, and that of shutdown; the notify_one behind the former, with
-- the worker that it happens to rouse, or a spurious wakeup of that worker; the notify_all behind the
-- latter; a worker that tests its condition; a worker whose task returns.
pub data Action : Type 0 where
  submits : ℕ → Action
  shuts_down notifies_all : Action
  notifies_one wakes returns : ℕ → Action

-- A section of worker_loop under the lock: the worker goes to sleep, leaves, or takes a task.
unfoldable pub wake : ℕ → ThreadPool → Option (List ℕ × ThreadPool)
wake i pool = elim pool.tasks [
  | [] ↦
      some ([], record pool { workers = set pool.workers i (if pool.stop then left else sleeps) })
  | task ∷ rest ↦
      some (task ∷ [], record pool { workers = set pool.workers i (runs task); tasks = rest })
]

abbrev pub rouse : Worker → Worker
rouse waits = waits
rouse sleeps = waits
rouse left = left
rouse (runs task) = runs task

abbrev pub any_asleep : List Worker → Bool
any_asleep [] = false
any_asleep (sleeps ∷ ws) = true
any_asleep (waits ∷ ws) = any_asleep ws
any_asleep (left ∷ ws) = any_asleep ws
any_asleep (runs task ∷ ws) = any_asleep ws

-- notify_one rouses one of the workers that sleep, and does nothing when there is none.
unfoldable pub notify_one : ℕ → ThreadPool → Option (List ℕ × ThreadPool)
notify_one i pool =
    let idle = if any_asleep pool.workers then none else some ([], pool) in
    elim (get_or pool.workers i left) [
      | sleeps ↦ some ([], record pool { workers = set pool.workers i waits })
      | waits ↦ idle
      | left ↦ idle
      | runs task ↦ idle
    ]

-- A step, with the task that it starts; `none` when that thread cannot take it.
unfoldable pub step : Action → ThreadPool → Option (List ℕ × ThreadPool)
step (submits task) pool = some ([], record pool { tasks = pool.tasks ++ (task ∷ []) })
step shuts_down pool = some ([], record pool { stop = true })
step notifies_all pool = some ([], record pool { workers = map rouse pool.workers })
step (notifies_one i) pool = notify_one i pool
step (wakes i) pool = elim (get_or pool.workers i left) [
  | waits ↦ wake i pool
  | sleeps ↦ none
  | left ↦ none
  | runs task ↦ none
]
step (returns i) pool = elim (get_or pool.workers i left) [
  | waits ↦ none
  | sleeps ↦ none
  | left ↦ none
  | runs task ↦ some ([], record pool { workers = set pool.workers i waits })
]

-- Steps one after the other, with the tasks that they start.
unfoldable pub run : List Action → ThreadPool → Option (List ℕ × ThreadPool)
run [] pool = some ([], pool)
run (a ∷ actions) pool = elim (step a pool) [
  | none ↦ none
  | some (tasks, pool') ↦ elim (run actions pool') [
    | none ↦ none
    | some (more, pool'') ↦ some (tasks ++ more, pool'')
  ]
]

-- A run that begins with the sections of shutdown: what else goes on between the two, and while the
-- call joins the workers.
unfoldable pub shutdown : List Action → List Action → List Action
shutdown between joining = shuts_down ∷ between ++ (notifies_all ∷ joining)

-- The joins of shutdown have returned.
unfoldable pub joined : List Worker → Bool
joined [] = true
joined (left ∷ ws) = joined ws
joined (waits ∷ ws) = false
joined (sleeps ∷ ws) = false
joined (runs task ∷ ws) = false
