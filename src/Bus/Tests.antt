-- ===== src/Bus/Tests.antt =====
-- The theorems of the bus on a small segment: two slots for messages of up to four bytes.
mod Lossy
mod Notifier
mod Handshake
mod Open
mod Checked
mod Owner
use message_us_cld.Prelude.{
  ℕ, ◌≡◌, ◌≤◌, refl, arith, List, [], ◌∷◌, ◌++◌, true, ◌&&◌, leb, ltb, length, if◌then◌else◌,
  get_or, drop, word32, ◌+◌, ◌%◌, ◌⊎◌,
}
use message_us_cld.Bus.Layout.{
  slot_index, slot_offset, compute_slot_stride, compute_shm_size, cache_line, control_block_size,
  slot_header_size,
}
use message_us_cld.Bus.Layout.Bounds.{slots_separate}
use message_us_cld.Bus.Segment.{Segment, Kernel, fresh, create, zero_slot}
use message_us_cld.Bus.Endpoints.{
  producer, consumer, reserve, overwrite, fill, publish, try_push, arrived, copy_out, release,
  try_pop,
}
use message_us_cld.Bus.Threads.{
  System, Reach, here, next, reserves, fills, publishes, checks, copies, after_reserve, after_fill,
  after_publish, after_check, after_copy,
}
use message_us_cld.Bus.Threads.Valid.{IsValid, in_ring, clip}
use message_us_cld.Bus.Threads.Order.{
  attached, delivered_in_order, delivered_whole, attached-IsValid,
}
use message_us_cld.Bus.Threads.Push.{pushed, try_push_lem}
use message_us_cld.Bus.Threads.Pop.{popped, try_pop_lem}

abbrev working : Kernel
working = record { shm_open = true; ftruncate = true; mmap = true }

abbrev pair : Segment
pair = fresh 7 2 4

abbrev start : System
start = attached 11 12 pair

abbrev hello : List ℕ
hello = 104 ∷ 105 ∷ []

-- The producer has sent `hello`, and the consumer has it in its buffer.
abbrev halfway : System
halfway =
    after_copy 4 (after_check (after_publish (after_fill (after_reserve start hello) hello) hello))

halfway_run : Reach 4 start halfway
unfolding producer consumer reserve fill overwrite publish arrived copy_out fresh slot_index
    zero_slot compute_slot_stride
halfway_run =
    next
      (next
        (next (next (next here (reserves hello refl refl)) (fills hello refl refl))
          (publishes hello refl refl))
        (checks refl refl))
      (copies refl refl)

delivered_in_order_example :
    (pair.control.slot_stride ≡ compute_slot_stride 4)
    × (clip 4 halfway.sent ≡ halfway.received ++ clip 4 (in_ring halfway))
    × (length (in_ring halfway) ≤ 2)
unfolding create
delivered_in_order_example =
    delivered_in_order working 7 1 4 pair (omega arith) refl 11 12 4 halfway_run (omega arith)

start-stride : start.prod.stride ≡ compute_slot_stride start.prod.max_msg
unfolding producer fresh compute_slot_stride
start-stride = refl

start-IsValid : IsValid 1 4 start
start-IsValid = attached-IsValid 4 11 12 7 1 4 (omega arith)

try_push_lem_example :
    ((try_push start.seg start.prod hello).0
      ≡ (leb 2 start.prod.max_msg && ltb (length (in_ring start)) start.prod.capacity))
    × (in_ring (pushed start hello) ≡ (
        if leb 2 start.prod.max_msg && ltb (length (in_ring start)) start.prod.capacity
        then in_ring start ++ ((2, hello) ∷ [])
        else in_ring start))
    × IsValid 1 4 (pushed start hello)
try_push_lem_example = try_push_lem start-IsValid start-stride refl hello

-- `hello` is in the ring.
one_in : System
one_in = pushed start hello

try_pop_lem_example :
    ((((try_pop one_in.seg one_in.cons 4).0, (try_pop one_in.seg one_in.cons 4).1)
        ≡ get_or (clip 4 (in_ring one_in)) 0 (0, []))
      × (in_ring (popped 4 one_in) ≡ drop 1 (in_ring one_in)))
    × IsValid 1 4 (popped 4 one_in)
unfolding one_in
try_pop_lem_example = try_pop_lem (try_push_lem start-IsValid start-stride refl hello).2 refl

popped_hello : (try_pop one_in.seg one_in.cons 4).1 ≡ hello
unfolding producer consumer try_push reserve fill overwrite publish try_pop arrived copy_out release
    fresh slot_index zero_slot compute_slot_stride one_in
popped_hello = refl

abbrev stored : ℕ
stored = compute_slot_stride 100 % word32

-- The last position before the wrap of the positions, and the first one behind it.
slots_separate_example :
    (control_block_size ≤ slot_offset 8 stored 0xFFFFFFFFFFFFFFFF)
    × (slot_offset 8 stored 0xFFFFFFFFFFFFFFFF + slot_header_size + 100 ≤ compute_shm_size 8 100)
    × (slot_offset 8 stored 0xFFFFFFFFFFFFFFFF % cache_line ≡ 0)
    × ((slot_index 8 0xFFFFFFFFFFFFFFFF ≡ slot_index 8 0)
        ⊎ ((slot_offset 8 stored 0xFFFFFFFFFFFFFFFF + stored ≤ slot_offset 8 stored 0)
            ⊎ (slot_offset 8 stored 0 + stored ≤ slot_offset 8 stored 0xFFFFFFFFFFFFFFFF)))
slots_separate_example = slots_separate 3 100 0xFFFFFFFFFFFFFFFF 0 (omega arith) (omega arith)
