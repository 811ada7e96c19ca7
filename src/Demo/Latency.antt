-- ===== src/Demo/Latency.antt =====
-- spsc_bus/bench_thread.cpp, producer_demo.cpp and consumer_demo.cpp: messages that carry the tick
-- count of their push, and what the consumer makes of it. A tick count is 8 bytes, the lowest first.
pub mod Measured
use message_us_cld.Prelude.{
  ℕ, zero, suc, ◌+◌, ◌*◌, ◌/◌, ◌%◌, ◌≡◌, ◌==◌, List, [], ◌∷◌, ◌++◌, Option, none, some, length,
  drop, replicate, ltb, leb, if◌then◌else◌, sub64,
}

unfoldable pub to_bytes : ℕ → ℕ → List ℕ
to_bytes zero x = []
to_bytes (suc n) x = (x % 256) ∷ to_bytes n (x / 256)

unfoldable pub of_bytes : ℕ → List ℕ → ℕ
of_bytes zero bytes = 0
of_bytes (suc n) [] = 0
of_bytes (suc n) (b ∷ bytes) = b + 256 * of_bytes n bytes

-- The argument of the program, at least the size of a tick count.
abbrev pub message_size : ℕ → ℕ
message_size arg = if ltb arg 8 then 8 else arg

-- `msg->send_tsc = tsc`, and `buf->send_tsc`.
abbrev pub write_stamp : List ℕ → ℕ → List ℕ
write_stamp msg tsc = to_bytes 8 tsc ++ drop 8 msg

abbrev pub read_stamp : List ℕ → ℕ
read_stamp buf = of_bytes 8 buf

-- The contents of the one buffer at each push; the list has the tick count of each round. A push spins
-- until there is room, so that nothing is left out.
unfoldable pub messages : List ℕ → List ℕ → List (List ℕ)
messages msg [] = []
messages msg (tsc ∷ tscs) = let msg' = write_stamp msg tsc in msg' ∷ messages msg' tscs

-- What the producers push: bench_thread clears its buffer first, producer_demo fills it.
abbrev pub producer_fn : ℕ → List ℕ → List (List ℕ)
producer_fn msg_size tscs = messages (replicate msg_size 0) tscs

abbrev pub producer_main : ℕ → List ℕ → List (List ℕ)
producer_main msg_size tscs = messages (replicate msg_size 171) tscs

-- What the pops returned, each into the one buffer, with the tick count after it.
unfoldable pub latencies : List ℕ → List (ℕ × List ℕ) → List ℕ → List ℕ
latencies buf [] nows = []
latencies buf (pop ∷ pops) [] = []
latencies buf ((size, bytes) ∷ pops) (now ∷ nows) =
    let buf' = bytes ++ drop (length bytes) buf in
    sub64 now (read_stamp buf') ∷ latencies buf' pops nows

-- consumer_demo keeps the latencies in the order of the pops as well.
abbrev pub consumer_main : List ℕ → List (ℕ × List ℕ) → List ℕ → List ℕ
consumer_main buf pops nows = latencies buf pops nows

-- The index that a percentile reads, where `idx` is the product in floating point. bench_thread and
-- bench_pool do not look whether there is an entry, and consumer_demo does.
unfoldable pub pct_index : ℕ → ℕ → ℕ
pct_index size idx = if leb size idx then sub64 size 1 else idx

unfoldable pub print_pct : ℕ → ℕ → Option ℕ
print_pct size idx = if size == 0 then none else some (pct_index size idx)
