-- ===== src/Demo/Allocator/Returned.antt =====
-- The benchmarks of the pool give every block back, and no assertion of the pool fails in them.
use message_us_cld.Prelude.{
  ℕ, zero, suc, ◌+◌, ◌*◌, ◌^◌, ◌≤◌, ◌<◌, ◌≡◌, inl, inr, refl, arith, [], length, some, max, word,
  mul64, done,
}
use message_us_cld.Pool.Size.{cache_line, align_up, next_pow2}
use message_us_cld.Pool.Memory
use message_us_cld.Pool.Memory.{Memory, Mmap}
use message_us_cld.Pool.Memory.Conserve.{Inv, alloc-Allocated}
use message_us_cld.Pool.Memory.Construct.{construct-Inv}
use message_us_cld.Pool.Memory.Release.{free-Inv}
use message_us_cld.Pool.Cache
use message_us_cld.Pool.Cache.{Stack, flush_all}
use message_us_cld.Pool.Cache.Conserve.{CacheInv, flush_all-Inv}
use message_us_cld.Pool.Cache.Serve.{cache_alloc-Served, cache_free-Inv}
use message_us_cld.Demo.Allocator.{
  defaults, pool_round, pool_rounds, bench_pool, cache_round, cache_rounds, bench_cache,
}

module _ {k : ℕ} where
  pool_round-Inv :
      (m : Memory) → Inv k m [] → (m' : Memory) × (pool_round m ≡ done m') × Inv k m' []
  unfolding pool_round
  pool_round-Inv m inv = elim (alloc-Allocated inv) [
    | inl (null, full, inv') ↦ ((Memory.alloc m).1, ground (arith, null), inv')
    | inr (some_block, new, there, inv') ↦
        let (m', freed, inv'') = free-Inv inv' in (m', ground (arith, some_block, freed), inv'')
  ]

  pool_rounds-Inv :
      (n : ℕ) (m : Memory) → Inv k m [] → (m' : Memory) × (pool_rounds n m ≡ done m') × Inv k m' []
  unfolding pool_rounds
  pool_rounds-Inv zero m inv = (m, refl, inv)
  pool_rounds-Inv (suc n) m inv =
      let (m1, once, inv1) = pool_round-Inv m inv in
      let (m', rest, inv') = pool_rounds-Inv n m1 inv1 in (m', rw once rest, inv')

  cache_round-Inv :
      (s : Stack) (m : Memory)
      → CacheInv k m s []
      → length s ≤ 64
      → (s' : Stack) × (m' : Memory) × (cache_round (s, m) ≡ done (s', m'))
        × CacheInv k m' s' []
        × (length s' ≤ 64)
  unfolding cache_round
  cache_round-Inv s m inv le =
      elim (cache_alloc-Served 64 32 s [] {m = m} (omega arith) (omega arith) inv le) [
        | inl (null, full, inv', le') ↦
            ((Cache.alloc 64 32 s m).1, (Cache.alloc 64 32 s m).2, ground (arith, null), inv', le')
        | inr (some_block, new, inv', le') ↦
            let (s', m', freed, inv'', le'') =
              cache_free-Inv 64 32 (Cache.alloc 64 32 s m).0 (Cache.alloc 64 32 s m).1 []
                (omega arith) (omega arith) inv' le' in
            (s', m', ground (arith, some_block, freed), inv'', le'')
      ]

  cache_rounds-Inv :
      (n : ℕ) (s : Stack) (m : Memory)
      → CacheInv k m s []
      → length s ≤ 64
      → (s' : Stack) × (m' : Memory) × (cache_rounds n (s, m) ≡ done (s', m'))
        × CacheInv k m' s' []
        × (length s' ≤ 64)
  unfolding cache_rounds
  cache_rounds-Inv zero s m inv le = (s, m, refl, inv, le)
  cache_rounds-Inv (suc n) s m inv le =
      let (s1, m1, once, inv1, le1) = cache_round-Inv s m inv le in
      let (s', m', rest, inv', le') = cache_rounds-Inv n s1 m1 inv1 le1 in
      (s', m', rw once rest, inv', le')

-- A mapping that the kernel grants, not at 0 and not up to the end of the address space.
module _ (mmap : Mmap) (block_sz base : ℕ) (small : block_sz ≤ 2 ^ 32)
    (granted : mmap defaults.huge_pages
        (mul64 (align_up (max block_sz cache_line) cache_line) (next_pow2 (max 65536 2)))
      ≡ some base)
    (pos : 0 < base)
    (fits : base + align_up (max block_sz cache_line) cache_line * next_pow2 (max 65536 2) < word)
    (warmup iter : ℕ) where
  -- However many rounds: bench_pool completes without a failed assertion, and at its end every block is
  -- in the pool.
  pub bench_pool-Inv :
      (k : ℕ) × (m : Memory) × (bench_pool mmap block_sz warmup iter ≡ done m) × Inv k m []
  unfolding bench_pool
  bench_pool-Inv =
      let (k, m0, built, inv0, r0, r1, r2, r3) =
        construct-Inv mmap block_sz 65536 base defaults small (omega arith) granted pos fits in
      let (m1, warm, inv1) = pool_rounds-Inv warmup m0 inv0 in
      let (m2, measured, inv2) = pool_rounds-Inv iter m1 inv1 in
      (k, m2, rw built (rw warm measured), inv2)

  -- However many rounds: bench_cache completes without a failed assertion, and after the destructor of
  -- the cache every block is in the pool.
  pub bench_cache-Inv :
      (k : ℕ) × (m : Memory) × (bench_cache mmap block_sz warmup iter ≡ done m) × Inv k m []
  unfolding bench_cache
  bench_cache-Inv =
      let (k, m0, built, inv0, r0, r1, r2, r3) =
        construct-Inv mmap block_sz 65536 base defaults small (omega arith) granted pos fits in
      let (s1, m1, warm, inv1, le1) = cache_rounds-Inv warmup [] m0 inv0 (omega arith) in
      let (s2, m2, measured, inv2, le2) = cache_rounds-Inv iter s1 m1 inv1 le1 in
      let (m3, flushed, inv3) = flush_all-Inv s2 [] inv2 in
      (k, m3, rw built (rw warm (rw measured flushed)), inv3)
