-- ===== src/Pool/Slab.antt =====
-- memory_pool/memory_pool.hpp: SlabPool, one MemoryPool for each size class. `pools_` is the list of
-- the pools by class.
pub mod Route
use message_us_cld.Prelude.{
  ℕ, zero, suc, ◌+◌, List, [], ◌∷◌, Option, none, some, Outcome, done, aborted, ◌>>=◌,
}
use message_us_cld.Pool.Size.{size_class_bytes, size_to_class}
use message_us_cld.Pool.Memory
use message_us_cld.Pool.Memory.{Memory, Mmap, Options}

-- `mmap i` is what the kernel answers to the constructor of class `i`.
pub construct_classes : (ℕ → Mmap) → ℕ → Options → ℕ → List ℕ → Outcome (List Memory)
construct_classes mmap count opts i [] = done []
construct_classes mmap count opts i (bytes ∷ rest) = do
  m ← Memory.construct (mmap i) bytes count opts
  ms ← construct_classes mmap count opts (i + 1) rest
  done (m ∷ ms)

pub construct : (ℕ → Mmap) → ℕ → Options → Outcome (List Memory)
construct mmap blocks_per_class opts =
    construct_classes mmap blocks_per_class opts 0 size_class_bytes

-- `pools_[i]->alloc()` and `pools_[i]->free(p)`. The callers keep `i` in range.
pub alloc_at : ℕ → List Memory → ℕ × List Memory
alloc_at i [] = (0, [])
alloc_at zero (m ∷ ms) = let (p, m') = Memory.alloc m in (p, m' ∷ ms)
alloc_at (suc i) (m ∷ ms) = let (p, ms') = alloc_at i ms in (p, m ∷ ms')

pub free_at : ℕ → ℕ → List Memory → Outcome (List Memory)
free_at i p [] = aborted
free_at zero p (m ∷ ms) = Memory.free m p >>= λ m'. done (m' ∷ ms)
free_at (suc i) p (m ∷ ms) = free_at i p ms >>= λ ms'. done (m ∷ ms')

pub alloc : List Memory → ℕ → ℕ × List Memory
alloc pools size = elim (size_to_class size) [ none ↦ (0, pools) | some i ↦ alloc_at i pools ]

-- The assertion on the size aborts.
pub free : List Memory → ℕ → ℕ → Outcome (List Memory)
free pools p size = elim (size_to_class size) [ none ↦ aborted | some i ↦ free_at i p pools ]
