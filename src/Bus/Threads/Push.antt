-- ===== src/Bus/Threads/Push.antt =====
-- A whole call of `try_push`, with nothing in between, puts a message into a bounded queue.
use mathlib.Core.List.{map}
use message_us_cld.Prelude.{
  ℕ, ◌≡◌, refl, sym, ap, ◌∙◌, arith, List, [], ◌∷◌, ◌++◌, Bool, true, false, ◌&&◌, ltb, leb, length,
  length-map, sub64, if◌then◌else◌, get_or,
}
use message_us_cld.Ring.{window, length-window}
use message_us_cld.Bus.Layout.{slot_index, compute_slot_stride}
use message_us_cld.Bus.Segment.{Slot, Segment}
use message_us_cld.Bus.Endpoints.{Producer, blank, overwrite, reserve, fill, try_push}
use message_us_cld.Bus.Threads.{System, idle, reserved, filled, after_fill}
use message_us_cld.Bus.Threads.{Reach, here, next, reserves, fills, publishes}
use message_us_cld.Bus.Threads.Order.{Reach-IsValid}
use message_us_cld.Bus.Threads.Valid.{PushingOk, IsValid, message, in_ring}
use message_us_cld.Bus.Threads.Writing.{fill-IsValid, reserve_result, in_ring-set}
use message_us_cld.Bus.Threads.Publishing.{in_ring-publish}

-- The system after a whole call of `try_push`.
abbrev pub pushed : System → List ℕ → System
pushed s msg =
    let (ok, p, g) = try_push s.seg s.prod msg in
    record s {
      seg = g;
      prod = p;
      pushing = idle;
      sent = if ok then s.sent ++ ((length msg, msg) ∷ []) else s.sent;
    }

pub length-in_ring :
    {k buf_size : ℕ} {s : System}
    → IsValid k buf_size s
    → length (in_ring s) ≡ sub64 s.seg.control.write_pos s.seg.control.read_pos
length-in_ring {s = s} v =
    length-map message (
      window (slot_index s.prod.capacity) blank s.seg.slots s.seg.control.read_pos
        (sub64 s.seg.control.write_pos s.seg.control.read_pos))
    ∙ length-window (slot_index s.prod.capacity) blank s.seg.slots s.seg.control.read_pos
        (sub64 s.seg.control.write_pos s.seg.control.read_pos)

-- The producer sees room exactly when there is some, although it looks at its cached position first.
reserve-exact :
    {k buf_size : ℕ} {s : System}
    → IsValid k buf_size s
    → (n : ℕ)
    → (reserve s.seg s.prod n).0
      ≡ (leb n s.prod.max_msg && ltb (length (in_ring s)) s.prod.capacity)
unfolding reserve
reserve-exact {s = s} v n = ground (arith, length-in_ring v, v.read_cache_behind, v.writer)

-- A call is a run of the producer's steps.
pushed_run :
    {buf_size : ℕ} {s : System} (msg : List ℕ) (room : Bool) (p : Producer)
    → s.pushing ≡ idle
    → reserve s.seg s.prod (length msg) ≡ (room, p)
    → Reach buf_size s (pushed s msg)
unfolding try_push
pushed_run {buf_size} {s} msg true p e eq =
    rw (eq, try_push) (next written (publishes msg refl refl))
  where
    got : System
    got = record s { prod = p; pushing = reserved msg }

    has_room : Reach buf_size s got
    has_room = next here (reserves msg e (rw eq refl))

    written : Reach buf_size s (after_fill got msg)
    written = next has_room (fills msg refl refl)
pushed_run {s = s} msg false p e eq = rw (eq, try_push) (next here (reserves msg e (rw eq refl)))

push_success :
    (seg : Segment) (p : Producer) (msg : List ℕ)
    → (try_push seg p msg).0 ≡ (reserve seg p (length msg)).0
unfolding try_push
push_success seg p msg = ground arith

push_effect :
    {k buf_size : ℕ} {s : System}
    → IsValid k buf_size s
    → (msg : List ℕ) (room : Bool) (rc : ℕ) → s.pushing ≡ idle
    → reserve s.seg s.prod (length msg) ≡ (room, record (s.prod) { read_cache = rc })
    → in_ring (pushed s msg) ≡ (if room then in_ring s ++ ((length msg, msg) ∷ []) else in_ring s)
unfolding try_push fill
push_effect {k} {buf_size} {s} v msg true rc e eq =
    rw (eq, try_push)
      (in_ring-publish v' msg ok.1 ok.2
        ∙ ap (λ ms. map message ms ++ ((length msg, msg) ∷ []))
            (in_ring-set w (overwrite old msg)
              (omega (arith, w.read_cache_behind, ok.1, w.writer))))
  where
    got : System
    got = record s { prod = record (s.prod) { read_cache = rc }; pushing = reserved msg }

    w : IsValid k buf_size got
    w = Reach-IsValid v (next here (reserves msg e (rw eq refl)))

    v' : IsValid k buf_size (after_fill got msg)
    v' = fill-IsValid w msg refl

    ok : PushingOk got.prod (fill s.seg got.prod msg).slots (filled msg)
    ok = v'.push_ok

    old : Slot
    old = get_or s.seg.slots (slot_index s.prod.capacity s.prod.write_pos) blank
push_effect {s = s} v msg false rc e eq = rw (eq, try_push) refl

-- In a valid state between two calls of the producer, `try_push` succeeds exactly when the message
-- fits a slot and the ring is not full. Then the message stands last in the ring; otherwise
-- the messages in the ring stay the same. The state is valid again. The producer's stride is the whole
-- one of its largest message.
pub try_push_lem :
    {k buf_size : ℕ} {s : System}
    → IsValid k buf_size s
    → s.prod.stride ≡ compute_slot_stride s.prod.max_msg
    → s.pushing ≡ idle
    → (msg : List ℕ)
    → ((try_push s.seg s.prod msg).0
        ≡ (leb (length msg) s.prod.max_msg && ltb (length (in_ring s)) s.prod.capacity))
      × (in_ring (pushed s msg) ≡ (
          if leb (length msg) s.prod.max_msg && ltb (length (in_ring s)) s.prod.capacity
          then in_ring s ++ ((length msg, msg) ∷ [])
          else in_ring s))
      × IsValid k buf_size (pushed s msg)
try_push_lem {s = s} v whole e msg =
    let (room, rc, result, _, _) = reserve_result v (length msg) in
    (
      push_success s.seg s.prod msg ∙ reserve-exact v (length msg),
      push_effect v msg room rc e result
          ∙ ap (λ b. if b then in_ring s ++ ((length msg, msg) ∷ []) else in_ring s)
              (sym (ap (λ q. q.0) result) ∙ reserve-exact v (length msg)),
      Reach-IsValid v (pushed_run msg room (record (s.prod) { read_cache = rc }) e result),
    )
