-- ===== src/Net/ThreadPool/Finished.antt =====
-- No task is lost at a shutdown (tcp_server/src/thread_pool.hpp).
use message_us_cld.Prelude.{
  ℕ, zero, suc, ◌≤◌, ◌<◌, ◌≡◌, refl, sym, ap, ◌∙◌, subst, arith, Bool, true, false, List, [], ◌∷◌,
  ◌++◌, some, append-nil, ◌⊎◌, inl, get_or, set, not, ◌&&◌, length, replicate, sum_by, length-set,
  length-replicate, length-map, Bool-cases, inr,
}
use message_us_cld.Net.ThreadPool.{
  Worker, waits, left, runs, ThreadPool, make, Action, submits, shuts_down, notifies_all,
  notifies_one, wakes, returns, wake, sleeps, notify_one, rouse, step, run, joined,
}
use message_us_cld.Net.ThreadPool.Order.{submitted, run-submitted, run-split, sum_by-rouse}

-- Nothing is submitted after shutdown was called.
abbrev pub submits_in_time : Bool → List Action → Bool
submits_in_time stopped [] = true
submits_in_time stopped (submits task ∷ acts) = not stopped && submits_in_time stopped acts
submits_in_time stopped (shuts_down ∷ acts) = submits_in_time true acts
submits_in_time stopped (notifies_all ∷ acts) = submits_in_time stopped acts
submits_in_time stopped (notifies_one i ∷ acts) = submits_in_time stopped acts
submits_in_time stopped (wakes i ∷ acts) = submits_in_time stopped acts
submits_in_time stopped (returns i ∷ acts) = submits_in_time stopped acts

abbrev gone : Worker → ℕ
gone waits = 0
gone sleeps = 0
gone left = 1
gone (runs task) = 0

-- Workers leave only when the pool is stopped and the queue is empty.
abbrev Kept : ThreadPool → Type 0
Kept pool = (sum_by gone pool.workers ≡ 0) ⊎ ((pool.stop ≡ true) × (pool.tasks ≡ []))

set-gone :
    (ws : List Worker) (i : ℕ) (v : Worker) → gone v ≡ 0 → sum_by gone (set ws i v) ≤ sum_by gone ws
set-gone [] i v here = omega arith
set-gone (w ∷ ws) zero v here = omega (arith, here)
set-gone (w ∷ ws) (suc i) v here = omega (arith, set-gone ws i v here)

-- What a step does to the workers' number, to `stop` and to the condition above.
abbrev Goes : ThreadPool → ThreadPool → Type 0
Goes pool q = (length q.workers ≡ length pool.workers) × (q.stop ≡ pool.stop) × Kept q

wake-Goes :
    (i : ℕ) (pool q : ThreadPool) (first ts : List ℕ)
    → pool.tasks ≡ ts
    → Kept pool
    → wake i pool ≡ some (first, q)
    → Goes pool q
unfolding wake
wake-Goes i pool q first [] h k e = elim (Bool-cases pool.stop) [
  | inl stop ↦ (let size = length-set pool.workers i left in ground (arith, h, e, size, stop))
  | inr goes ↦
      (let size = length-set pool.workers i sleeps in
        let fewer = set-gone pool.workers i sleeps refl in
        ground (arith, h, e, size, k, fewer, goes))
]
wake-Goes i pool q first (t ∷ ts) h k e =
    let size = length-set pool.workers i (runs t) in
    let fewer = set-gone pool.workers i (runs t) refl in ground (arith, h, e, size, k, fewer)

wakes-Goes :
    (i : ℕ) (w : Worker) (pool q : ThreadPool) (first : List ℕ)
    → get_or pool.workers i left ≡ w
    → Kept pool
    → step (wakes i) pool ≡ some (first, q)
    → Goes pool q
unfolding step
wakes-Goes i waits pool q first h k e =
    wake-Goes i pool q first pool.tasks refl k (ground (arith, h, e))
wakes-Goes i sleeps pool q first h k e = absurd (ground (arith, h, e))
wakes-Goes i left pool q first h k e = absurd (ground (arith, h, e))
wakes-Goes i (runs t) pool q first h k e = absurd (ground (arith, h, e))

returns-Goes :
    (i : ℕ) (w : Worker) (pool q : ThreadPool) (first : List ℕ)
    → get_or pool.workers i left ≡ w
    → Kept pool
    → step (returns i) pool ≡ some (first, q)
    → Goes pool q
unfolding step
returns-Goes i waits pool q first h k e = absurd (ground (arith, h, e))
returns-Goes i sleeps pool q first h k e = absurd (ground (arith, h, e))
returns-Goes i left pool q first h k e = absurd (ground (arith, h, e))
returns-Goes i (runs t) pool q first h k e =
    let size = length-set pool.workers i waits in
    let fewer = set-gone pool.workers i waits refl in ground (arith, h, e, size, k, fewer)

notify-Goes :
    (i : ℕ) (w : Worker) (pool q : ThreadPool) (first : List ℕ)
    → get_or pool.workers i left ≡ w
    → Kept pool
    → notify_one i pool ≡ some (first, q)
    → Goes pool q
unfolding notify_one
notify-Goes i sleeps pool q first h k e =
    let size = length-set pool.workers i waits in
    let fewer = set-gone pool.workers i waits refl in ground (arith, h, e, size, k, fewer)
notify-Goes i waits pool q first h k e = ground (arith, h, e, k)
notify-Goes i left pool q first h k e = ground (arith, h, e, k)
notify-Goes i (runs t) pool q first h k e = ground (arith, h, e, k)

gone-rouse : (w : Worker) → gone (rouse w) ≡ gone w
gone-rouse waits = refl
gone-rouse sleeps = refl
gone-rouse left = refl
gone-rouse (runs t) = refl

step-Kept :
    (a : Action) (acts : List Action) (pool p : ThreadPool) (first : List ℕ)
    → submits_in_time pool.stop (a ∷ acts) ≡ true
    → Kept pool
    → step a pool ≡ some (first, p)
    → (length p.workers ≡ length pool.workers) × (submits_in_time p.stop acts ≡ true) × Kept p
unfolding step
step-Kept (submits t) acts pool p first time k goes = ground (arith, time, goes, k)
step-Kept shuts_down acts pool p first time k goes = ground (arith, time, goes, k)
step-Kept notifies_all acts pool p first time k goes =
    let size = length-map rouse pool.workers in
    let same = sum_by-rouse gone gone-rouse pool.workers in
    ground (arith, time, goes, k, size, same)
step-Kept (notifies_one i) acts pool p first time k goes =
    let (size, stop, k') = notify-Goes i (get_or pool.workers i left) pool p first refl k goes in
    (size, subst (λ s. submits_in_time s acts ≡ true) (sym stop) time, k')
step-Kept (wakes i) acts pool p first time k goes =
    let (size, stop, k') = wakes-Goes i (get_or pool.workers i left) pool p first refl k goes in
    (size, subst (λ s. submits_in_time s acts ≡ true) (sym stop) time, k')
step-Kept (returns i) acts pool p first time k goes =
    let (size, stop, k') = returns-Goes i (get_or pool.workers i left) pool p first refl k goes in
    (size, subst (λ s. submits_in_time s acts ≡ true) (sym stop) time, k')

run-Kept :
    (acts : List Action) (pool q : ThreadPool) (started : List ℕ)
    → submits_in_time pool.stop acts ≡ true
    → Kept pool
    → run acts pool ≡ some (started, q)
    → (length q.workers ≡ length pool.workers) × Kept q
unfolding run
run-Kept [] pool q started time k e = ground (arith, e, k)
run-Kept (a ∷ acts) pool q started time k e =
    let (first, p, more, goes, rest, split) = run-split a acts pool q started e in
    let (size, stop, k') = step-Kept a acts pool p first time k goes in
    let (size', k'') = run-Kept acts p q more stop k' rest in (size' ∙ size, k'')

all_gone : (ws : List Worker) → joined ws ≡ true → sum_by gone ws ≡ length ws
unfolding joined
all_gone [] e = refl
all_gone (waits ∷ ws) e = absurd (ground (arith, e))
all_gone (sleeps ∷ ws) e = absurd (ground (arith, e))
all_gone (runs t ∷ ws) e = absurd (ground (arith, e))
all_gone (left ∷ ws) e = omega (arith, all_gone ws e)

new-gone : (n : ℕ) → sum_by gone (replicate n waits) ≡ 0
new-gone zero = refl
new-gone (suc n) = omega (arith, new-gone n)

-- In a pool with a worker at least, where nothing is submitted after shutdown was called: once the
-- joins of shutdown have returned, every task that was submitted was started, in the order of the
-- calls, and its worker has returned from it.
pub run-joined :
    (num_threads : ℕ) (actions : List Action) (started : List ℕ) (pool : ThreadPool)
    → 0 < num_threads
    → submits_in_time false actions ≡ true
    → run actions (make num_threads) ≡ some (started, pool)
    → joined pool.workers ≡ true
    → (started ≡ submitted actions) × (pool.tasks ≡ [])
unfolding make
run-joined num_threads actions started pool pos time e all =
    let (size, kept) =
      run-Kept actions (make num_threads) pool started time (inl (new-gone num_threads)) e in
    let every = all_gone pool.workers all in
    let start = length-replicate num_threads waits in
    let empty : pool.tasks ≡ [] = ground (arith, kept, every, size, start, pos) in
    (
      sym (append-nil started)
          ∙ ap (λ xs. started ++ xs) (sym empty)
          ∙ sym (run-submitted num_threads actions started pool e),
      empty,
    )
