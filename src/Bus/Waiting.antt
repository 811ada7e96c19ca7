-- ===== src/Bus/Waiting.antt =====
-- spsc_bus/spsc_bus.hpp: the calls that spin without a bound (Producer::push and Consumer::pop), the
-- heartbeats, and the constructor of OverwriteProducer. The segment that each attempt finds is a
-- parameter.
pub mod Forever
use message_us_cld.Prelude.{
  ℕ, Bool, true, false, List, [], ◌∷◌, Option, some, none, ◌==◌, not, if◌then◌else◌,
}
use message_us_cld.Bus.Segment.{Segment}
use message_us_cld.Bus.Endpoints.{Producer, Consumer, try_push, try_pop, producer}

-- `none` is a call that still spins when the given segments are over.
unfoldable pub push : Producer → List ℕ → List Segment → Option (Producer × Segment)
push p msg [] = none
push p msg (seg ∷ segs) =
    let (ok, p', seg') = try_push seg p msg in
    let rest = push p' msg segs in if ok then some (p', seg') else rest

unfoldable pub pop : Consumer → ℕ → List Segment → Option (ℕ × List ℕ × Consumer × Segment)
pop c buf_size [] = none
pop c buf_size (seg ∷ segs) =
    let (n, bytes, c', seg') = try_pop seg c buf_size in
    let rest = pop c' buf_size segs in if not (n == 0) then some (n, bytes, c', seg') else rest

-- `mono_ns` is the time of CLOCK_MONOTONIC.
unfoldable pub producer_heartbeat : ℕ → Segment → Segment
producer_heartbeat mono_ns seg =
    let control = seg.control in
    record seg { control = record control { producer_heartbeat_ts = mono_ns } }

unfoldable pub consumer_heartbeat : ℕ → Segment → Segment
consumer_heartbeat mono_ns seg =
    let control = seg.control in
    record seg { control = record control { consumer_heartbeat_ts = mono_ns } }

-- The constructor of OverwriteProducer does what that of Producer does.
abbrev pub overwrite_producer : ℕ → Segment → Producer × Segment
overwrite_producer pid seg = producer pid seg
