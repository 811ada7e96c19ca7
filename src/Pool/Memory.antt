-- ===== src/Pool/Memory.antt =====
-- memory_pool/memory_pool.hpp: PoolOptions, PoolStats and MemoryPool, without POOL_NUMA. The mapping
-- that mmap answers is a parameter: the base address, or nothing for MAP_FAILED. mlock has no effect
-- on the state.
pub mod Blocks
pub mod Construct
pub mod Conserve
pub mod Release
use message_us_cld.Prelude.{
  ℕ, zero, suc, ◌+◌, Bool, true, false, Option, none, some, ◌&&◌, ◌==◌, ltb, leb, if◌then◌else◌,
  max, add64, sub64, mul64, Outcome, done, threw, aborted, ◌>>=◌,
}
use message_us_cld.Pool.Size.{cache_line, align_up, next_pow2}
use message_us_cld.Pool.FreeList
use message_us_cld.Pool.FreeList.{FreeList}

pub record Options : Type 0 where
  pub huge_pages : Bool
  pub lock_memory : Bool
  pub numa_local : Bool

pub record Stats : Type 0 where
  pub allocs : ℕ
  pub frees : ℕ
  pub alloc_failures : ℕ

pub outstanding : Stats → ℕ
outstanding s = sub64 s.allocs s.frees

pub record Memory : Type 0 where
  pub block_size : ℕ
  pub num_blocks : ℕ
  pub opts : Options
  pub freelist : FreeList
  pub backing : ℕ
  pub backing_size : ℕ
  pub stats : Stats

-- mmap: whether huge pages are asked for, and the size.
abbrev pub Mmap : Type 0
Mmap = Bool → ℕ → Option ℕ

-- The constructor of the free list asserts a power of two.
abbrev or_abort : Option FreeList → Outcome FreeList
or_abort none = aborted
or_abort (some f) = done f

-- MAP_FAILED becomes a system_error.
pub map_backing : Mmap → Options → ℕ → Outcome ℕ
map_backing mmap opts size = elim (mmap opts.huge_pages size) [
  | none ↦ threw
  | some base ↦ done base
]

-- `n` rounds of the loop are left, from block `i` on.
pub populate : ℕ → ℕ → ℕ → ℕ → FreeList → Outcome FreeList
populate zero i base size f = done f
populate (suc n) i base size f =
    let (ok, g) = FreeList.push f (add64 base (mul64 i size)) in
    elim ok [ true ↦ populate n (i + 1) base size g | false ↦ aborted ]

pub construct : Mmap → ℕ → ℕ → Options → Outcome Memory
construct mmap size blocks opts = do
  let block_size = align_up (max size cache_line) cache_line
  let num_blocks = next_pow2 (max blocks 2)
  empty ← or_abort (FreeList.make num_blocks)
  base ← map_backing mmap opts (mul64 block_size num_blocks)
  full ← populate num_blocks 0 base block_size empty
  done (record {
    block_size = block_size;
    num_blocks = num_blocks;
    opts = opts;
    freelist = full;
    backing = base;
    backing_size = mul64 block_size num_blocks;
    stats = record { allocs = 0; frees = 0; alloc_failures = 0 };
  })

-- 0 is the nullptr of an exhausted pool.
pub alloc : Memory → ℕ × Memory
alloc m =
    let (p, f) = FreeList.pop m.freelist in
    if p == 0
    then (p, record m { freelist = f; stats = failed })
    else (p, record m { freelist = f; stats = allocated })
  where
    open m use {stats}

    allocated : Stats
    allocated = record stats { allocs = add64 stats.allocs 1 }

    failed : Stats
    failed = record stats { alloc_failures = add64 stats.alloc_failures 1 }

pub owns : Memory → ℕ → Bool
owns m p = leb m.backing p && ltb p (add64 m.backing m.backing_size)

-- Each assertion of the source aborts.
pub free : Memory → ℕ → Outcome Memory
unfolding owns
free m p = if p == 0 then aborted else if owns m p then returned else aborted
  where
    open m use {stats}

    returned : Outcome Memory
    returned =
        let (ok, f) = FreeList.push m.freelist p in
        if ok
        then done (record m { freelist = f; stats = record stats { frees = add64 stats.frees 1 } })
        else aborted

pub available : Memory → ℕ
available m = FreeList.size_approx m.freelist
