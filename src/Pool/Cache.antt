-- ===== src/Pool/Cache.antt =====
-- memory_pool/memory_pool.hpp: ThreadLocalCache over a MemoryPool. The stack is the list of its
-- entries, the top first; `top_` is its length. The two template parameters are a section's.
pub mod Conserve
pub mod Serve
use message_us_cld.Prelude.{
  ℕ, zero, suc, List, [], ◌∷◌, ◌==◌, ltb, if◌then◌else◌, length, Outcome, done, aborted, ◌>>=◌,
}
use message_us_cld.Pool.Memory
use message_us_cld.Pool.Memory.{Memory}

abbrev pub Stack : Type 0
Stack = List ℕ

-- Up to `n` blocks from the pool, until it is exhausted.
pub refill : ℕ → Stack → Memory → Stack × Memory
refill zero s m = (s, m)
refill (suc n) s m =
    let (p, m') = Memory.alloc m in
    let rest = refill n (p ∷ s) m' in if p == 0 then (s, m') else rest

-- The top of the stack, or nullptr.
pop_top : Stack × Memory → ℕ × Stack × Memory
pop_top ([], m) = (0, [], m)
pop_top (p ∷ s, m) = (p, s, m)

-- `n` blocks back to the pool. The source reads `stack_[--top_]` unchecked: an empty stack, which
-- the callers rule out, aborts here.
pub flush : ℕ → Stack → Memory → Outcome (Stack × Memory)
flush zero s m = done (s, m)
flush (suc n) [] m = aborted
flush (suc n) (p ∷ s) m = Memory.free m p >>= flush n s

pub flush_all : Stack → Memory → Outcome Memory
flush_all [] m = done m
flush_all (p ∷ s) m = Memory.free m p >>= flush_all s

module _ (local_capacity batch_size : ℕ) where
  pub alloc : Stack → Memory → ℕ × Stack × Memory
  unfolding pop_top
  alloc (p ∷ s) m = (p, s, m)
  alloc [] m = pop_top (refill batch_size [] m)

  pub free : ℕ → Stack → Memory → Outcome (Stack × Memory)
  free p s m =
      if ltb (length s) local_capacity
      then done (p ∷ s, m)
      else (flush batch_size s m >>= λ r. done (p ∷ r.0, r.1))
