-- ===== src/Net/ThreadPool/Order.antt =====
-- Tasks start in the order in which they were submitted (tcp_server/src/thread_pool.hpp).
use message_us_cld.Prelude.{
  ℕ, ◌≡◌, refl, sym, ap, ap₂, ◌+◌, sum_by, map, ◌∙◌, arith, List, [], ◌∷◌, ◌++◌, some, append_assoc,
  append-nil, inl, inr, Option-cases, get_or,
}
use message_us_cld.Net.ThreadPool.{
  Worker, waits, left, runs, ThreadPool, make, Action, submits, shuts_down, notifies_all,
  notifies_one, wakes, returns, wake, sleeps, notify_one, rouse, step, run,
}

abbrev pub submitted : List Action → List ℕ
submitted [] = []
submitted (submits task ∷ acts) = task ∷ submitted acts
submitted (shuts_down ∷ acts) = submitted acts
submitted (notifies_all ∷ acts) = submitted acts
submitted (notifies_one i ∷ acts) = submitted acts
submitted (wakes i ∷ acts) = submitted acts
submitted (returns i ∷ acts) = submitted acts

abbrev submitted_by : Action → List ℕ
submitted_by a = submitted (a ∷ [])

-- A step takes the first task of the queue, or none, and puts in what it submits.
wake-queue :
    (i : ℕ) (pool p : ThreadPool) (started ts : List ℕ)
    → pool.tasks ≡ ts
    → wake i pool ≡ some (started, p)
    → pool.tasks ≡ started ++ p.tasks
unfolding wake
wake-queue i pool p started [] h e = ground (arith, h, e)
wake-queue i pool p started (t ∷ ts) h e = ground (arith, h, e)

worker-queue :
    (i : ℕ) (w : Worker) (pool p : ThreadPool) (started : List ℕ)
    → get_or pool.workers i left ≡ w
    → step (wakes i) pool ≡ some (started, p)
    → pool.tasks ≡ started ++ p.tasks
unfolding step
worker-queue i waits pool p started h e =
    wake-queue i pool p started pool.tasks refl (ground (arith, h, e))
worker-queue i sleeps pool p started h e = absurd (ground (arith, h, e))
worker-queue i left pool p started h e = absurd (ground (arith, h, e))
worker-queue i (runs t) pool p started h e = absurd (ground (arith, h, e))

return-queue :
    (i : ℕ) (w : Worker) (pool p : ThreadPool) (started : List ℕ)
    → get_or pool.workers i left ≡ w
    → step (returns i) pool ≡ some (started, p)
    → pool.tasks ≡ started ++ p.tasks
unfolding step
return-queue i waits pool p started h e = absurd (ground (arith, h, e))
return-queue i sleeps pool p started h e = absurd (ground (arith, h, e))
return-queue i left pool p started h e = absurd (ground (arith, h, e))
return-queue i (runs t) pool p started h e = ground (arith, h, e)

-- notify_all does not change what does not tell sleeping workers from waiting ones.
pub sum_by-rouse :
    (f : Worker → ℕ)
    → ((w : Worker) → f (rouse w) ≡ f w)
    → (ws : List Worker) → sum_by f (map rouse ws) ≡ sum_by f ws
sum_by-rouse f same [] = refl
sum_by-rouse f same (w ∷ ws) = ap₂ (λ m n. m + n) (same w) (sum_by-rouse f same ws)

notify-queue :
    (i : ℕ) (w : Worker) (pool p : ThreadPool) (started : List ℕ)
    → get_or pool.workers i left ≡ w
    → notify_one i pool ≡ some (started, p)
    → pool.tasks ≡ started ++ p.tasks
unfolding notify_one
notify-queue i sleeps pool p started h e = ground (arith, h, e)
notify-queue i waits pool p started h e = ground (arith, h, e)
notify-queue i left pool p started h e = ground (arith, h, e)
notify-queue i (runs t) pool p started h e = ground (arith, h, e)

step-queue :
    (a : Action) (pool p : ThreadPool) (started : List ℕ)
    → step a pool ≡ some (started, p)
    → pool.tasks ++ submitted_by a ≡ started ++ p.tasks
unfolding step
step-queue (submits t) pool p started e = ground (arith, e)
step-queue shuts_down pool p started e = append-nil pool.tasks ∙ ground (arith, e)
step-queue notifies_all pool p started e = append-nil pool.tasks ∙ ground (arith, e)
step-queue (notifies_one i) pool p started e =
    append-nil pool.tasks ∙ notify-queue i (get_or pool.workers i left) pool p started refl e
step-queue (wakes i) pool p started e =
    append-nil pool.tasks ∙ worker-queue i (get_or pool.workers i left) pool p started refl e
step-queue (returns i) pool p started e =
    append-nil pool.tasks ∙ return-queue i (get_or pool.workers i left) pool p started refl e

submitted-cons :
    (a : Action) (acts : List Action) → submitted (a ∷ acts) ≡ submitted_by a ++ submitted acts
submitted-cons (submits t) acts = refl
submitted-cons shuts_down acts = refl
submitted-cons notifies_all acts = refl
submitted-cons (notifies_one i) acts = refl
submitted-cons (wakes i) acts = refl
submitted-cons (returns i) acts = refl

-- A run that is possible, split at its first step.
pub run-split :
    (a : Action) (acts : List Action) (pool p : ThreadPool) (started : List ℕ)
    → run (a ∷ acts) pool ≡ some (started, p)
    → (first : List ℕ) × (q : ThreadPool) × (more : List ℕ) × (step a pool ≡ some (first, q))
      × (run acts q ≡ some (more, p))
      × (started ≡ first ++ more)
unfolding run
run-split a acts pool p started e = elim (Option-cases (step a pool)) [
  | inl stuck ↦ absurd (ground (arith, stuck, e))
  | inr ((first, q), goes) ↦ elim (Option-cases (run acts q)) [
    | inl stuck ↦ absurd (ground (arith, goes, stuck, e))
    | inr ((more, r), rest) ↦
        (first, q, more, goes, ground (arith, goes, rest, e), ground (arith, goes, rest, e))
  ]
]

run-queue :
    (acts : List Action) (pool p : ThreadPool) (started : List ℕ)
    → run acts pool ≡ some (started, p)
    → pool.tasks ++ submitted acts ≡ started ++ p.tasks
unfolding run
run-queue [] pool p started e = append-nil pool.tasks ∙ ground (arith, e)
run-queue (a ∷ acts) pool p started e =
    let (first, q, more, goes, rest, split) = run-split a acts pool p started e in
    ap (λ xs. pool.tasks ++ xs) (submitted-cons a acts)
    ∙ sym (append_assoc pool.tasks (submitted_by a) (submitted acts))
    ∙ ap (λ xs. xs ++ submitted acts) (step-queue a pool q first goes)
    ∙ append_assoc first q.tasks (submitted acts)
    ∙ ap (λ xs. first ++ xs) (run-queue acts q p more rest)
    ∙ sym (append_assoc first more p.tasks)
    ∙ ap (λ xs. xs ++ p.tasks) (sym split)

-- Whatever steps the callers and workers of a new pool take, in any order: the tasks submitted are
-- those that were started, in the same order and each once, followed by those in the queue.
pub run-submitted :
    (num_threads : ℕ) (actions : List Action) (started : List ℕ) (pool : ThreadPool)
    → run actions (make num_threads) ≡ some (started, pool)
    → submitted actions ≡ started ++ pool.tasks
unfolding make
run-submitted num_threads actions started pool e =
    run-queue actions (make num_threads) pool started e
