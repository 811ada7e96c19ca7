-- ===== src/Demo/Allocator.antt =====
-- memory_pool/bench_pool.cpp: the rounds of bench_pool, bench_cache and bench_slab. Their tick counts,
-- which nothing depends on, are left out.
pub mod Returned
pub mod Slabs
use message_us_cld.Prelude.{
  ℕ, zero, suc, ◌==◌, false, if◌then◌else◌, Outcome, done, ◌>>=◌, List, [],
}
use message_us_cld.Pool.Memory
use message_us_cld.Pool.Memory.{Memory, Mmap, Options}
use message_us_cld.Pool.Slab
use message_us_cld.Pool.Cache
use message_us_cld.Pool.Cache.{Stack, flush_all}

abbrev pub defaults : Options
defaults = record { huge_pages = false; lock_memory = false; numa_local = false }

-- A round of bench_pool: a block, which goes back when there is one.
unfoldable pub pool_round : Memory → Outcome Memory
pool_round mp = let (p, mp') = Memory.alloc mp in if p == 0 then done mp' else Memory.free mp' p

unfoldable pub pool_rounds : ℕ → Memory → Outcome Memory
pool_rounds zero mp = done mp
pool_rounds (suc n) mp = pool_round mp >>= pool_rounds n

-- The rounds of the warm-up and those that are measured.
unfoldable pub bench_pool : Mmap → ℕ → ℕ → ℕ → Outcome Memory
bench_pool mmap block_sz warmup iter = Memory.construct mmap block_sz 65536 defaults >>= λ mp.
    pool_rounds warmup mp >>= pool_rounds iter

-- ThreadLocalCache<64>, whose batches are of 32.
unfoldable pub cache_round : Stack × Memory → Outcome (Stack × Memory)
cache_round (cache, mp) =
    let (p, cache', mp') = Cache.alloc 64 32 cache mp in
    if p == 0 then done (cache', mp') else Cache.free 64 32 p cache' mp'

unfoldable pub cache_rounds : ℕ → Stack × Memory → Outcome (Stack × Memory)
cache_rounds zero c = done c
cache_rounds (suc n) c = cache_round c >>= cache_rounds n

-- The destructor of the cache comes last.
unfoldable pub bench_cache : Mmap → ℕ → ℕ → ℕ → Outcome Memory
bench_cache mmap block_sz warmup iter = Memory.construct mmap block_sz 65536 defaults >>= λ mp.
    cache_rounds warmup ([], mp) >>= λ c. cache_rounds iter c >>= λ d. flush_all d.0 d.1

unfoldable pub slab_round : ℕ → List Memory → Outcome (List Memory)
slab_round alloc_sz slab =
    let (p, slab') = Slab.alloc slab alloc_sz in
    if p == 0 then done slab' else Slab.free slab' p alloc_sz

unfoldable pub slab_rounds : ℕ → ℕ → List Memory → Outcome (List Memory)
slab_rounds alloc_sz zero slab = done slab
slab_rounds alloc_sz (suc n) slab = slab_round alloc_sz slab >>= slab_rounds alloc_sz n

-- `mmap i` is what the kernel answers to the constructor of class `i`.
unfoldable pub bench_slab : (ℕ → Mmap) → ℕ → ℕ → ℕ → Outcome (List Memory)
bench_slab mmap alloc_sz warmup iter = Slab.construct mmap 65536 defaults >>= λ slab.
    slab_rounds alloc_sz warmup slab >>= slab_rounds alloc_sz iter
