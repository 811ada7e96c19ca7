-- ===== src/Demo/Tests.antt =====
-- One message of the demos from end to end, and the rounds of a benchmark of the pool.
use message_us_cld.Prelude.{ℕ, ◌^◌, ◌-◌, ◌≡◌, refl, arith, true, List, [], ◌∷◌, some, none, done}
use message_us_cld.Pool.Size.{align_up, next_pow2}
use message_us_cld.Pool.Memory.{Memory, Mmap}
use message_us_cld.Pool.Memory.Conserve.{Inv}
use message_us_cld.Demo.Allocator.{bench_cache}
use message_us_cld.Demo.Allocator.Returned.{bench_cache-Inv}
use message_us_cld.Bus.Layout.{slot_index, compute_slot_stride}
use message_us_cld.Bus.Segment.{Segment, Kernel, create, fresh, zero_slot}
use message_us_cld.Bus.Endpoints.{
  producer, consumer, reserve, fill, overwrite, publish, arrived, copy_out, release,
}
use message_us_cld.Bus.Threads.{
  System, Reach, here, next, reserves, fills, publishes, checks, copies, releases, after_reserve,
  after_fill, after_publish, after_check, after_copy, after_release,
}
use message_us_cld.Bus.Threads.Order.{attached}
use message_us_cld.Demo.Latency.{to_bytes, messages, producer_fn, latencies, pct_index, print_pct}
use message_us_cld.Demo.Latency.Measured.{differences, latencies-differences}

abbrev kernel : Kernel
kernel = record { shm_open = true; ftruncate = true; mmap = true }

abbrev segment : Segment
segment = fresh 7 (2 ^ 16) 8

abbrev start : System
start = attached 11 12 segment

-- The message that was pushed at tick 1000.
abbrev stamped : List ℕ
stamped = 232 ∷ 3 ∷ 0 ∷ 0 ∷ 0 ∷ 0 ∷ 0 ∷ 0 ∷ []

abbrev received : System
received =
    after_release
      (after_copy 8
        (after_check (after_publish (after_fill (after_reserve start stamped) stamped) stamped)))
      8 stamped

received_run : Reach 8 start received
unfolding producer consumer reserve fill overwrite publish arrived copy_out release fresh slot_index
    zero_slot compute_slot_stride
received_run =
    next
      (next
        (next
          (next (next (next here (reserves stamped refl refl)) (fills stamped refl refl))
            (publishes stamped refl refl))
          (checks refl refl))
        (copies refl refl))
      (releases 8 stamped refl refl)

stamped_first : producer_fn 8 (1000 ∷ []) ≡ stamped ∷ []
unfolding messages to_bytes
stamped_first = refl

latencies-differences_example :
    latencies stamped received.received (1500 ∷ []) ≡ differences (1500 ∷ []) (1000 ∷ [])
unfolding create fresh messages to_bytes producer consumer reserve fill publish arrived copy_out
    release
latencies-differences_example =
    latencies-differences kernel 7 8 segment refl 11 12 received_run stamped stamped (1500 ∷ [])
      (1000 ∷ []) (omega arith, tt) refl refl

-- Without samples the index of bench_thread and bench_pool is out of range.
no_sample : (pct_index 0 0 ≡ 2 ^ 64 - 1) × (print_pct 0 0 ≡ none)
unfolding pct_index print_pct
no_sample = (refl, refl)

abbrev grants : Mmap
grants huge size = some 4096

bench_cache-Inv_example : (k : ℕ) × (m : Memory) × (bench_cache grants 64 2 3 ≡ done m) × Inv k m []
unfolding align_up next_pow2
bench_cache-Inv_example =
    bench_cache-Inv grants 64 4096 (omega arith) refl (omega arith) (omega arith) 2 3
