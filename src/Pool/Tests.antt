-- ===== src/Pool/Tests.antt =====
-- The theorems of the allocator at concrete inputs.
mod Threads
use message_us_cld.Prelude.{
  ℕ, ◌*◌, ◌%◌, ◌-◌, ◌^◌, ◌≤◌, ◌<◌, ◌≡◌, refl, false, List, [], ◌∷◌, some, max, length, word, arith,
  done, get_or,
}
use message_us_cld.Prelude.{◌+◌, ◌*◌, ◌-◌}
use message_us_cld.Pool.Slab
use message_us_cld.Pool.Slab.Route.{
  SlabInv, no_class, one_class, Routed, gain, slab_alloc-Routed, slab_free-SlabInv,
}
use message_us_cld.Fifo
use message_us_cld.Fifo.{Op, put, get}
use message_us_cld.Pool.Size.{
  cache_line, align_up, next_pow2, size_to_class, size_class_bytes, num_size_classes,
}
use message_us_cld.Pool.Size.Rounding.{next_pow2_least}
use message_us_cld.Pool.FreeList.{FreeList}
use message_us_cld.Pool.FreeList.Valid.{IsValid, contents}
use message_us_cld.Pool.FreeList.Refine.{run, run_refines}
use message_us_cld.Pool.Memory
use message_us_cld.Pool.Memory.{Memory, Options, Mmap}
use message_us_cld.Pool.Memory.Conserve.{Inv, Allocated, alloc-Allocated}
use message_us_cld.Pool.Memory.Construct.{construct-Inv}
use message_us_cld.Pool.Memory.Release.{free-Inv}
use message_us_cld.Pool.Cache
use message_us_cld.Pool.Cache.Conserve.{CacheInv}
use message_us_cld.Pool.Cache.Serve.{Served, cache_alloc-Served, cache_free-Inv}

next_pow2_least_example :
    (k : ℕ) × (k ≤ 63) × (next_pow2 1000 ≡ 2 ^ k) × (1000 ≤ 2 ^ k) × (2 ^ k < 2 * 1000)
next_pow2_least_example = next_pow2_least 1000 (omega arith) (omega arith)

-- Two slots in use, and the write position about to wrap.
abbrev wrapping : FreeList
wrapping = record { wp = 0; rp = word - 1; cap = 2; mask = 1; slots = 7 ∷ 8 ∷ [] }

wrapping-IsValid : IsValid 1 wrapping
wrapping-IsValid = record {
  small = omega arith;
  capacity = refl;
  masked = refl;
  storage = refl;
  reading = omega arith;
  writing = omega arith;
  fits = omega arith;
}

abbrev script : List Op
script = put 9 ∷ put 10 ∷ get ∷ get ∷ get ∷ []

run_refines_example : run wrapping script ≡ Fifo.run 2 (contents wrapping) script
run_refines_example = run_refines {k = 1} script wrapping-IsValid

abbrev plain : Options
plain = record { huge_pages = false; lock_memory = false; numa_local = false }

abbrev grants : Mmap
grants huge size = some 4096

construct-Inv_example :
    (k : ℕ) × (m : Memory) × (Memory.construct grants 100 2 plain ≡ done m)
    × Inv k m []
    × (100 ≤ m.block_size)
    × (2 ≤ m.num_blocks)
    × (m.block_size ≡ align_up (max 100 cache_line) cache_line)
    × (m.num_blocks ≡ next_pow2 (max 2 2))
unfolding align_up next_pow2
construct-Inv_example =
    construct-Inv grants 100 2 4096 plain (omega arith) (omega arith) refl (omega arith)
      (omega arith)

-- Two blocks of 64 bytes, the first of them with the client.
abbrev one_out : Memory
one_out = record {
  block_size = 64;
  num_blocks = 2;
  opts = plain;
  freelist = record { wp = 2; rp = 1; cap = 2; mask = 1; slots = 4096 ∷ 4160 ∷ [] };
  backing = 4096;
  backing_size = 128;
  stats = record { allocs = 1; frees = 0; alloc_failures = 0 };
}

one_out-Inv : Inv 1 one_out (4096 ∷ [])
one_out-Inv = record {
  list_valid = record {
    small = omega arith;
    capacity = refl;
    masked = refl;
    storage = refl;
    reading = omega arith;
    writing = omega arith;
    fits = omega arith;
  };
  list_cap = refl;
  mapped = omega arith;
  sized = omega arith;
  whole = refl;
  in_memory = omega arith;
  conserved = λ p. omega arith;
  complete = refl;
  counted = refl;
  allocs_in_range = omega arith;
  frees_in_range = omega arith;
}

-- The same pool with both blocks back.
abbrev all_in : Memory
all_in = record one_out {
  freelist = record { wp = 3; rp = 1; cap = 2; mask = 1; slots = 4096 ∷ 4160 ∷ [] };
  stats = record { allocs = 1; frees = 1; alloc_failures = 0 };
}

all_in-Inv : Inv 1 all_in []
all_in-Inv = record {
  list_valid = record {
    small = omega arith;
    capacity = refl;
    masked = refl;
    storage = refl;
    reading = omega arith;
    writing = omega arith;
    fits = omega arith;
  };
  list_cap = refl;
  mapped = omega arith;
  sized = omega arith;
  whole = refl;
  in_memory = omega arith;
  conserved = λ p. omega arith;
  complete = refl;
  counted = refl;
  allocs_in_range = omega arith;
  frees_in_range = omega arith;
}

alloc-Allocated_example : Allocated 1 one_out (4096 ∷ []) (Memory.alloc one_out)
alloc-Allocated_example = alloc-Allocated one_out-Inv

free-Inv_example : (m : Memory) × (Memory.free one_out 4096 ≡ done m) × Inv 1 m []
free-Inv_example = free-Inv one_out-Inv

cache_alloc-Served_example : Served 2 2 1 [] (Cache.alloc 2 1 (4096 ∷ []) one_out)
cache_alloc-Served_example =
    cache_alloc-Served 2 1 (4096 ∷ []) [] (omega arith) (omega arith) one_out-Inv (omega arith)

cache_free-Inv_example :
    (s : List ℕ) × (m : Memory) × (Cache.free 2 1 4096 [] one_out ≡ done (s, m))
    × CacheInv 1 m s []
    × (length s ≤ 2)
cache_free-Inv_example =
    cache_free-Inv 2 1 4096 [] [] (omega arith) (omega arith) one_out-Inv (omega arith)

-- Two blocks of `b` bytes, both in the pool.
abbrev pair_of : ℕ → Memory
pair_of b = record {
  block_size = b;
  num_blocks = 2;
  opts = plain;
  freelist = record {
    wp = 2;
    rp = 0;
    cap = 2;
    mask = 1;
    slots = (4096 + 0 * b) ∷ (4096 + 1 * b) ∷ [];
  };
  backing = 4096;
  backing_size = 2 * b;
  stats = record { allocs = 0; frees = 0; alloc_failures = 0 };
}

pair_of-Inv : (b : ℕ) → 0 < b → b ≤ 8192 → Inv 1 (pair_of b) []
pair_of-Inv b pos le = record {
  list_valid = record {
    small = omega arith;
    capacity = refl;
    masked = refl;
    storage = refl;
    reading = omega arith;
    writing = omega arith;
    fits = omega arith;
  };
  list_cap = refl;
  mapped = omega arith;
  sized = pos;
  whole = omega arith;
  in_memory = omega arith;
  conserved = λ p. omega arith;
  complete = refl;
  counted = refl;
  allocs_in_range = omega arith;
  frees_in_range = omega arith;
}

abbrev ones : List ℕ → List ℕ
ones [] = []
ones (b ∷ bs) = 1 ∷ ones bs

abbrev pairs_of : List ℕ → List Memory
pairs_of [] = []
pairs_of (b ∷ bs) = pair_of b ∷ pairs_of bs

abbrev nothing_held : List ℕ → List (List ℕ)
nothing_held [] = []
nothing_held (b ∷ bs) = [] ∷ nothing_held bs

abbrev slab : List Memory
slab = pairs_of size_class_bytes

-- Sizes of which a pair of blocks fits the mapping.
abbrev Sizes : List ℕ → Type 0
Sizes [] = Unit {0}
Sizes (b ∷ bs) = (0 < b) × (b ≤ 8192) × Sizes bs

pairs-SlabInv : (bs : List ℕ) → Sizes bs → SlabInv bs (ones bs) (pairs_of bs) (nothing_held bs)
pairs-SlabInv [] h = no_class
pairs-SlabInv (b ∷ bs) h = one_class (omega arith) (pair_of-Inv b h.0 h.1) (pairs-SlabInv bs h.2)

slab-SlabInv : SlabInv size_class_bytes (ones size_class_bytes) slab (nothing_held size_class_bytes)
slab-SlabInv = pairs-SlabInv size_class_bytes (omega arith)

slab_alloc-Routed_example :
    (i : ℕ) × (300 ≤ get_or size_class_bytes i 0)
    × (0 < i → get_or size_class_bytes (i - 1) 0 < 300)
    × Routed i size_class_bytes
        (ones size_class_bytes)
        slab
        (nothing_held size_class_bytes)
        (Slab.alloc slab 300)
slab_alloc-Routed_example = slab_alloc-Routed 300 slab-SlabInv (omega arith)

-- The client has a block of the first class.
abbrev first_out : List Memory
first_out = one_out ∷ pairs_of (128 ∷ 256 ∷ 512 ∷ 1024 ∷ 2048 ∷ 4096 ∷ 8192 ∷ [])

first_out-SlabInv :
    SlabInv size_class_bytes
      (ones size_class_bytes)
      first_out
      (gain 0 4096 (nothing_held size_class_bytes))
first_out-SlabInv =
    one_class (omega arith) one_out-Inv
      (pairs-SlabInv (128 ∷ 256 ∷ 512 ∷ 1024 ∷ 2048 ∷ 4096 ∷ 8192 ∷ []) (omega arith))

slab_free-SlabInv_example :
    (ms : List Memory) × (Slab.free first_out 4096 40 ≡ done ms)
    × SlabInv size_class_bytes (ones size_class_bytes) ms (nothing_held size_class_bytes)
unfolding size_to_class
slab_free-SlabInv_example =
    slab_free-SlabInv (nothing_held size_class_bytes) 4096 40 0 refl first_out-SlabInv
