-- ===== src/Pool/Cache/Serve.antt =====
-- `alloc` and `free` of a cache, hit or miss.
use message_us_cld.Prelude.{
  ℕ, zero, suc, ◌+◌, ◌≤◌, ◌<◌, ◌≡◌, ◌≢◌, ◌⊎◌, inl, inr, refl, arith, List, [], ◌∷◌, ◌++◌, length,
  count, count-append, length-append, done,
}
use native.Mathlib.Decide.{dec_lt}
use message_us_cld.Pool.Memory
use message_us_cld.Pool.Memory.{Memory}
use message_us_cld.Pool.Memory.Conserve.{alloc-Allocated, Inv-reorder, held_once}
use message_us_cld.Pool.Cache.{Stack, refill, pop_top, flush, alloc, free}
use message_us_cld.Pool.Cache.Conserve.{CacheInv, CacheInv-swap, flush-Inv}

refill_stops :
    (n : ℕ) (s : Stack) (m : Memory)
    → (Memory.alloc m).0 ≡ 0
    → refill (suc n) s m ≡ (s, (Memory.alloc m).1)
unfolding refill
refill_stops n s m e = ground arith

refill_goes_on :
    (n : ℕ) (s : Stack) (m : Memory)
    → (Memory.alloc m).0 ≢ 0
    → refill (suc n) s m ≡ refill n ((Memory.alloc m).0 ∷ s) (Memory.alloc m).1
unfolding refill
refill_goes_on n s m ne = ground arith

-- What a refill leaves: the blocks that it took are in the stack.
abbrev Refilled : ℕ → ℕ → Stack → List ℕ → Stack × Memory → Type 0
Refilled k n s held (s', m') =
    CacheInv k m' s' held × (length s ≤ length s') × (length s' ≤ length s + n)

refill-Refilled :
    {k : ℕ} (n : ℕ) (s held : List ℕ) {m : Memory}
    → CacheInv k m s held
    → Refilled k n s held (refill n s m)
unfolding refill
refill-Refilled zero s held {m} inv = (inv, omega arith, omega arith)
refill-Refilled (suc n) s held {m} inv = elim (alloc-Allocated inv) [
  | inl (null, all, inv') ↦ rw (refill_stops n s m null) (inv', omega arith, omega arith)
  | inr (ne, fresh, listed, inv') ↦
      let (inv2, low, high) = refill-Refilled n ((Memory.alloc m).0 ∷ s) held inv' in
      rw (refill_goes_on n s m ne) (inv2, omega arith, omega arith)
]

-- What `alloc` answers: nothing, when the client has every block of the pool; or a block that it did
-- not have. The stack never outgrows its array of `capacity` entries.
abbrev pub Served : ℕ → ℕ → ℕ → List ℕ → ℕ × Stack × Memory → Type 0
Served capacity total k held (p, s', m') =
    ((p ≡ 0) × (length held ≡ total) × CacheInv k m' s' held × (length s' ≤ capacity))
    ⊎ ((p ≢ 0) × (count p held ≡ 0) × CacheInv k m' s' (p ∷ held) × (length s' ≤ capacity))

hit-Served :
    {k : ℕ} (capacity total p : ℕ) (s held : List ℕ) {m : Memory}
    → CacheInv k m (p ∷ s) held
    → length s ≤ capacity
    → Served capacity total k held (p, s, m)
hit-Served capacity total p s held inv le =
    let (ne, once) = held_once (s ++ held) inv in
    inr (ne, omega (arith, once, count-append p s held), CacheInv-swap p s held inv, le)

pop_top-Served :
    {k : ℕ} (capacity total : ℕ) (r : Stack × Memory) (held : List ℕ)
    → CacheInv k r.1 r.0 held
    → 0 < length r.0
    → length r.0 ≤ capacity
    → Served capacity total k held (pop_top r)
unfolding pop_top
pop_top-Served capacity total ([], m) held inv some_left le = absurd (omega arith)
pop_top-Served capacity total (p ∷ s, m) held inv some_left le =
    hit-Served capacity total p s held inv (omega arith)

miss-Served :
    {k : ℕ} (capacity n : ℕ) (held : List ℕ) {m : Memory}
    → CacheInv k m [] held
    → suc n ≤ capacity
    → Served capacity m.num_blocks k held (pop_top (refill (suc n) [] m))
unfolding pop_top
miss-Served capacity n held {m} inv le = elim (alloc-Allocated inv) [
  | inl (null, all, inv') ↦ rw (refill_stops n [] m null) (inl (refl, all, inv', omega arith))
  | inr (ne, fresh, listed, inv') ↦
      let (inv2, low, high) = refill-Refilled n ((Memory.alloc m).0 ∷ []) held inv' in
      rw (refill_goes_on n [] m ne) (
        pop_top-Served capacity m.num_blocks (refill n ((Memory.alloc m).0 ∷ []) (Memory.alloc m).1)
          held inv2 (omega arith) (omega arith))
]

-- From a cache within its capacity `alloc` answers nothing only when the client has every block of
-- the pool, and otherwise a block that the client did not have; what the pool has handed out is
-- again the stack and the client's blocks, and the stack stays within its array.
pub cache_alloc-Served :
    {k : ℕ} (capacity batch : ℕ) (s held : List ℕ) {m : Memory}
    → 1 ≤ batch
    → batch ≤ capacity
    → CacheInv k m s held
    → length s ≤ capacity
    → Served capacity m.num_blocks k held (alloc capacity batch s m)
unfolding alloc
cache_alloc-Served capacity batch (p ∷ s) held {m} one small inv le =
    hit-Served capacity m.num_blocks p s held inv (omega arith)
cache_alloc-Served capacity zero [] held one small inv le = absurd (omega arith)
cache_alloc-Served capacity (suc n) [] held one small inv le = miss-Served capacity n held inv small

free_hit :
    (capacity batch p : ℕ) (s : Stack) (m : Memory)
    → length s < capacity
    → free capacity batch p s m ≡ done (p ∷ s, m)
unfolding free
free_hit capacity batch p s m lt = ground arith

free_spill :
    (capacity batch p : ℕ) (s : Stack) (m : Memory) {s' : Stack} {m' : Memory}
    → capacity ≤ length s
    → flush batch s m ≡ done (s', m')
    → free capacity batch p s m ≡ done (p ∷ s', m')
unfolding free
free_spill capacity batch p s m full flushed = ground arith

-- Giving back a block that the client has completes, hit or spill: no assertion fails, no read of
-- the stack is out of range, the block is with the cache or the pool, and the stack stays within its
-- array.
pub cache_free-Inv :
    {k : ℕ} (capacity batch p : ℕ) (s held : List ℕ) {m : Memory}
    → 1 ≤ batch
    → batch ≤ capacity
    → CacheInv k m s (p ∷ held)
    → length s ≤ capacity
    → (s' : Stack) × (m' : Memory) × (free capacity batch p s m ≡ done (s', m'))
      × CacheInv k m' s' held
      × (length s' ≤ capacity)
cache_free-Inv {k} capacity batch p s held {m} one small inv le =
    elim (dec_lt (length s) capacity) [
      | yes room ↦ (p ∷ s, m, free_hit capacity batch p s m room, cached s m inv, room)
      | no full ↦
          let (s', m', flushed, inv', total) = flush-Inv batch s (p ∷ held) inv (omega arith) in
          (
            p ∷ s',
            m',
            free_spill capacity batch p s m (omega arith) flushed,
            cached s' m' inv',
            omega arith,
          )
    ]
  where
    cached : (t : Stack) (n : Memory) → CacheInv k n t (p ∷ held) → CacheInv k n (p ∷ t) held
    cached t n i =
        Inv-reorder (t ++ p ∷ held) i
          (λ q. omega (arith, count-append q t held, count-append q t (p ∷ held)))
          (omega (arith, length-append t held, length-append t (p ∷ held)))
