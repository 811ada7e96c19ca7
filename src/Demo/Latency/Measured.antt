-- ===== src/Demo/Latency/Measured.antt =====
-- The latencies that the demos report are those of the messages that were sent.
use message_us_cld.Prelude.{
  ℕ, zero, suc, ◌/◌, ◌^◌, ◌<◌, ◌≡◌, refl, sym, ap, ap₂, ◌∙◌, arith, List, [], ◌∷◌, ◌++◌, map,
  append_assoc, append-nil, length, length-map, length-append, drop, sub64, word, done, some,
}
use message_us_cld.Bus.Segment.{Segment, Kernel, create}
use message_us_cld.Bus.Threads.{System, Reach}
use message_us_cld.Bus.Threads.Order.{attached, delivered_whole}
use message_us_cld.Demo.Latency.{
  to_bytes, of_bytes, message_size, write_stamp, read_stamp, messages, latencies, pct_index,
  print_pct,
}

of_bytes-to_bytes : (n x : ℕ) (rest : List ℕ) → x < 256 ^ n → of_bytes n (to_bytes n x ++ rest) ≡ x
unfolding of_bytes to_bytes
of_bytes-to_bytes zero x rest small = omega (arith, small)
of_bytes-to_bytes (suc n) x rest small =
    let later = of_bytes-to_bytes n (x / 256) rest (omega (arith, small)) in omega (arith, later)

read-write_stamp :
    (msg rest : List ℕ) (tsc : ℕ) → tsc < word → read_stamp (write_stamp msg tsc ++ rest) ≡ tsc
read-write_stamp msg rest tsc small =
    ap (of_bytes 8) (append_assoc (to_bytes 8 tsc) (drop 8 msg) rest)
    ∙ of_bytes-to_bytes 8 tsc (drop 8 msg ++ rest) (omega (arith, small))

length-messages : (msg tscs : List ℕ) → length (messages msg tscs) ≡ length tscs
unfolding messages
length-messages msg [] = refl
length-messages msg (tsc ∷ tscs) = ap suc (length-messages (write_stamp msg tsc) tscs)

-- A message with its size, as try_push takes it.
abbrev pub sized : List ℕ → ℕ × List ℕ
sized msg = (length msg, msg)

abbrev pub Ticks : List ℕ → Type 0
Ticks [] = Unit
Ticks (tsc ∷ tscs) = (tsc < word) × Ticks tscs

-- The time of each pop less that of its push.
abbrev pub differences : List ℕ → List ℕ → List ℕ
differences [] tscs = []
differences (now ∷ nows) [] = []
differences (now ∷ nows) (tsc ∷ tscs) = sub64 now tsc ∷ differences nows tscs

latencies-messages :
    (buf msg nows tscs : List ℕ)
    → Ticks tscs
    → latencies buf (map sized (messages msg tscs)) nows ≡ differences nows tscs
unfolding latencies messages
latencies-messages buf msg [] [] ticks = refl
latencies-messages buf msg [] (tsc ∷ tscs) ticks = refl
latencies-messages buf msg (now ∷ nows) [] ticks = refl
latencies-messages buf msg (now ∷ nows) (tsc ∷ tscs) (small, ticks) =
    let sent = write_stamp msg tsc in
    ap₂ (λ t ls. sub64 now t ∷ ls) (read-write_stamp msg (drop (length sent) buf) tsc small)
      (latencies-messages (sent ++ drop (length sent) buf) sent nows tscs ticks)

nothing_left : {A : Type 0} (xs ys zs : List A) → xs ≡ ys ++ zs → length xs ≡ length ys → xs ≡ ys
nothing_left xs ys [] e same = e ∙ append-nil ys
nothing_left xs ys (z ∷ zs) e same = absurd (omega (arith, ap length e, length-append ys (z ∷ zs)))

-- A producer and a consumer on a new segment of 2^16 slots for messages of the given size, at least 8
-- bytes, in any interleaving, and tick counts below 2^64. When the messages sent are the one buffer
-- with a tick count for each round, and as many were received: the latency of each round is the tick
-- count after its pop less the one before its push.
pub latencies-differences :
    (kernel : Kernel) (session arg : ℕ) (seg : Segment)
    → (create kernel session (2 ^ 16) (message_size arg)).0 ≡ done seg
    → (producer_pid consumer_pid : ℕ) {s : System}
    → Reach (message_size arg) (attached producer_pid consumer_pid seg) s
    → (msg buf nows tscs : List ℕ) → Ticks tscs
    → s.sent ≡ map sized (messages msg tscs)
    → length s.received ≡ length tscs
    → latencies buf s.received nows ≡ differences nows tscs
latencies-differences kernel session arg seg created pp cp {s} r msg buf nows tscs ticks sent all =
    let (rest, flow, short) =
      delivered_whole kernel session 16 (message_size arg) seg (omega arith) created pp cp
        (message_size arg) r (omega arith) in
    let same = nothing_left s.sent s.received rest flow (
      ap length sent ∙ length-map sized (messages msg tscs) ∙ length-messages msg tscs ∙ sym all) in
    ap (λ pops. latencies buf pops nows) (sym same ∙ sent)
    ∙ latencies-messages buf msg nows tscs ticks

-- An index that consumer_demo prints is one of an entry.
print_pct-within : (size idx i : ℕ) → size < word → print_pct size idx ≡ some i → i < size
unfolding print_pct pct_index
print_pct-within size idx i small e = ground (arith, e)
