-- ===== src/Bus/Threads/Valid.antt =====
-- What holds between any two steps of the producer and the consumer.
use mathlib.Core.List.{map}
use message_us_cld.Prelude.{
  ℕ, ◌^◌, ◌≤◌, ◌<◌, ◌≡◌, ◌≢◌, List, ◌++◌, length, take, word, sub64, get_or,
}
use mathlib.Core.List.{◌∷◌, []}
use message_us_cld.Ring.{window}
use message_us_cld.Bus.Layout.{slot_index}
use message_us_cld.Bus.Segment.{Slot}
use message_us_cld.Bus.Endpoints.{Producer, Consumer, blank}
use message_us_cld.Bus.Threads.{
  System, Pushing, Popping, idle, reserved, filled, waiting, ready, copied,
}

abbrev pub message : Slot → ℕ × List ℕ
message s = (s.size, take s.size s.payload)

-- A message reaches the consumer as far as its buffer of `buf_size` bytes goes.
abbrev pub clipped : ℕ → ℕ × List ℕ → ℕ × List ℕ
clipped buf_size (size, bytes) = (size, take buf_size bytes)

abbrev pub clip : ℕ → List (ℕ × List ℕ) → List (ℕ × List ℕ)
clip buf_size = map (clipped buf_size)

-- The messages in the ring, the oldest first.
abbrev pub in_ring : System → List (ℕ × List ℕ)
in_ring s = map message (
    window (slot_index s.prod.capacity) blank s.seg.slots s.seg.control.read_pos
      (sub64 s.seg.control.write_pos s.seg.control.read_pos))

-- What a producer that has reserved, or filled, a slot relies on.
abbrev pub PushingOk : Producer → List Slot → Pushing → Type 0
PushingOk p slots idle = Unit {0}
PushingOk p slots (reserved msg) =
    (length msg ≤ p.max_msg) × (sub64 p.write_pos p.read_cache < p.capacity)
PushingOk p slots (filled msg) =
    (length msg ≤ p.max_msg)
    × (sub64 p.write_pos p.read_cache < p.capacity)
    × (message (get_or slots (slot_index p.capacity p.write_pos) blank) ≡ (length msg, msg))

-- What a consumer that has seen, or copied, a message relies on.
abbrev pub PoppingOk : ℕ → Consumer → List Slot → Popping → Type 0
PoppingOk buf_size c slots waiting = Unit {0}
PoppingOk buf_size c slots ready = c.read_pos ≢ c.write_cache
PoppingOk buf_size c slots (copied size bytes) =
    (c.read_pos ≢ c.write_cache)
    × ((size, bytes)
        ≡ clipped buf_size (message (get_or slots (slot_index c.capacity c.read_pos) blank)))

-- Every message has its length for its size, and is within the limit.
abbrev pub Within : ℕ → List (ℕ × List ℕ) → Type 0
Within max_msg [] = Unit {0}
Within max_msg (msg ∷ msgs) =
    (msg.0 ≡ length (msg.1)) × (length (msg.1) ≤ max_msg) × Within max_msg msgs

pub record IsValid (k buf_size : ℕ) (s : System) : Type 0 where
  pub small : k ≤ 31
  pub prod_capacity : s.prod.capacity ≡ 2 ^ k
  pub cons_capacity : s.cons.capacity ≡ 2 ^ k
  pub storage : length s.seg.slots ≡ 2 ^ k
  pub writer : s.prod.write_pos ≡ s.seg.control.write_pos
  pub reader : s.cons.read_pos ≡ s.seg.control.read_pos
  pub write_range : s.seg.control.write_pos < word
  pub read_range : s.seg.control.read_pos < word
  pub read_cache_range : s.prod.read_cache < word
  pub write_cache_range : s.cons.write_cache < word
  pub read_cache_behind :
      sub64 s.seg.control.write_pos s.seg.control.read_pos
      ≤ sub64 s.seg.control.write_pos s.prod.read_cache
  pub read_cache_fits : sub64 s.seg.control.write_pos s.prod.read_cache ≤ s.prod.capacity
  pub write_cache_behind :
      sub64 s.cons.write_cache s.seg.control.read_pos
      ≤ sub64 s.seg.control.write_pos s.seg.control.read_pos
  pub push_ok : PushingOk s.prod s.seg.slots s.pushing
  pub pop_ok : PoppingOk buf_size s.cons s.seg.slots s.popping
  pub sent_within : Within s.prod.max_msg s.sent
  pub flow : clip buf_size s.sent ≡ s.received ++ clip buf_size (in_ring s)
