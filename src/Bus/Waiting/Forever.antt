-- ===== src/Bus/Waiting/Forever.antt =====
-- When push and pop return (spsc_bus/spsc_bus.hpp).
use message_us_cld.Prelude.{ℕ, ◌<◌, ◌≡◌, ◌≢◌, refl, arith, List, [], ◌∷◌, some, none, length}
use message_us_cld.Bus.Segment.{Segment}
use message_us_cld.Bus.Endpoints.{Producer, Consumer, try_push, try_pop, reserve}
use message_us_cld.Bus.Waiting.{push, pop}

-- A message over the limit never gets in, however often push tries.
pub push-too_big :
    (p : Producer) (msg : List ℕ) (segs : List Segment)
    → p.max_msg < length msg
    → push p msg segs ≡ none
unfolding push try_push reserve
push-too_big p msg [] big = refl
push-too_big p msg (seg ∷ segs) big =
    (let rest = push-too_big p msg segs big in ground (arith, big, rest))

-- A pop that returns brings a size above 0: it takes messages of size 0 out of the ring and spins on.
pub pop-positive :
    (c c' : Consumer) (buf_size n : ℕ) (bytes : List ℕ) (segs : List Segment) (seg' : Segment)
    → pop c buf_size segs ≡ some (n, bytes, c', seg')
    → n ≢ 0
unfolding pop
pop-positive c c' buf_size n bytes [] seg' e = absurd (ground (arith, e))
pop-positive c c' buf_size n bytes (seg ∷ segs) seg' e =
    let rest = pop-positive (try_pop seg c buf_size).2 c' buf_size n bytes segs seg' in
    ground (arith, e, rest)
