-- ===== src/Bus/Threads/Order.antt =====
-- What the two sides get across, in any interleaving: every message once, whole, and in order.
use message_us_cld.Prelude.{
  ℕ, ◌^◌, ◌≤◌, ◌≡◌, refl, sym, ap, ap₂, ◌∙◌, subst, arith, done, length-replicate, length-map, List,
  [], ◌∷◌, ◌++◌, length, sub64, ◌+◌, word32,
}
use message_us_cld.Ring.{window, length-window}
use message_us_cld.Bus.Layout.{slot_index, compute_slot_stride}
use message_us_cld.Bus.Layout.Bounds.{stored_stride}
use message_us_cld.Bus.Segment.{Segment, Kernel, create, fresh, zero_slot}
use message_us_cld.Bus.Endpoints.{blank, reserve, publish, Producer, producer, consumer}
use message_us_cld.Bus.Threads.{
  System, idle, waiting, Step, reserves, scribbles, fills, publishes, checks, copies, releases,
  Reach, here, next,
}
use message_us_cld.Bus.Threads.Valid.{IsValid, message, in_ring, Within, clip, clipped}
use message_us_cld.Bus.Threads.Writing.{reserve-IsValid, scribbled-IsValid, fill-IsValid}
use message_us_cld.Bus.Threads.Publishing.{publish-IsValid}
use message_us_cld.Bus.Threads.Reading.{check-IsValid, copy-IsValid, release-IsValid, take_of_short}

module _ {k buf_size : ℕ} where
  pub Step-IsValid :
      {s t : System} → IsValid k buf_size s → Step buf_size s t → IsValid k buf_size t
  Step-IsValid v (reserves msg e eq) = subst (IsValid k buf_size) (sym eq) (reserve-IsValid v msg)
  Step-IsValid v (scribbles msg x e eq) =
      subst (IsValid k buf_size) (sym eq) (scribbled-IsValid v msg x e)
  Step-IsValid v (fills msg e eq) = subst (IsValid k buf_size) (sym eq) (fill-IsValid v msg e)
  Step-IsValid v (publishes msg e eq) =
      subst (IsValid k buf_size) (sym eq) (publish-IsValid v msg e)
  Step-IsValid v (checks e eq) = subst (IsValid k buf_size) (sym eq) (check-IsValid v)
  Step-IsValid v (copies e eq) = subst (IsValid k buf_size) (sym eq) (copy-IsValid v e)
  Step-IsValid v (releases size bytes e eq) =
      subst (IsValid k buf_size) (sym eq) (release-IsValid v size bytes e)

  pub Reach-IsValid :
      {s t : System} → IsValid k buf_size s → Reach buf_size s t → IsValid k buf_size t
  Reach-IsValid v here = v
  Reach-IsValid v (next r step) = Step-IsValid (Reach-IsValid v r) step

-- A producer and a consumer attached to a fresh segment, nothing sent yet.
abbrev pub attached : ℕ → ℕ → Segment → System
attached producer_pid consumer_pid seg =
    let (p, seg') = producer producer_pid seg in
    let (c, seg'') = consumer consumer_pid seg' in
    record {
      seg = seg'';
      prod = p;
      cons = c;
      pushing = idle;
      popping = waiting;
      sent = [];
      received = [];
    }

reserve-max_msg : (seg : Segment) (p : Producer) (n : ℕ) → (reserve seg p n).1.max_msg ≡ p.max_msg
unfolding reserve
reserve-max_msg seg p n = ground arith

Step-max_msg : {buf_size : ℕ} {s t : System} → Step buf_size s t → t.prod.max_msg ≡ s.prod.max_msg
unfolding publish producer
Step-max_msg {s = s} (reserves msg e eq) =
    ap (λ u. u.prod.max_msg) eq ∙ reserve-max_msg s.seg s.prod (length msg)
Step-max_msg (scribbles msg x e eq) = ap (λ u. u.prod.max_msg) eq
Step-max_msg (fills msg e eq) = ap (λ u. u.prod.max_msg) eq
Step-max_msg (publishes msg e eq) = ap (λ u. u.prod.max_msg) eq
Step-max_msg (checks e eq) = ap (λ u. u.prod.max_msg) eq
Step-max_msg (copies e eq) = ap (λ u. u.prod.max_msg) eq
Step-max_msg (releases size bytes e eq) = ap (λ u. u.prod.max_msg) eq

Reach-max_msg : {buf_size : ℕ} {s t : System} → Reach buf_size s t → t.prod.max_msg ≡ s.prod.max_msg
Reach-max_msg here = refl
Reach-max_msg (next r step) = Step-max_msg step ∙ Reach-max_msg r

pub create_result :
    (kernel : Kernel) (session capacity max_msg : ℕ) (seg : Segment)
    → (create kernel session capacity max_msg).0 ≡ done seg
    → fresh session capacity max_msg ≡ seg
unfolding create
create_result kernel session capacity max_msg seg e = ground arith

-- Nothing is in the ring of a fresh segment.
pub attached-IsValid :
    (buf_size producer_pid consumer_pid session k max_msg : ℕ)
    → k ≤ 31
    → IsValid k buf_size (attached producer_pid consumer_pid (fresh session (2 ^ k) max_msg))
unfolding fresh producer consumer
attached-IsValid buf_size producer_pid consumer_pid session k max_msg small = record {
  small = small;
  prod_capacity = refl;
  cons_capacity = refl;
  storage = length-replicate (2 ^ k) (zero_slot max_msg);
  writer = refl;
  reader = refl;
  write_range = omega arith;
  read_range = omega arith;
  read_cache_range = omega arith;
  write_cache_range = omega arith;
  read_cache_behind = omega arith;
  read_cache_fits = omega arith;
  write_cache_behind = omega arith;
  push_ok = tt;
  pop_ok = tt;
  sent_within = tt;
  flow = refl;
}

Reach-capacity : {k buf_size : ℕ} {s : System} → IsValid k buf_size s → length (in_ring s) ≤ 2 ^ k
Reach-capacity {s = s} v = omega (
  arith,
  length-map message (
      window (slot_index s.prod.capacity) blank s.seg.slots s.seg.control.read_pos
        (sub64 s.seg.control.write_pos s.seg.control.read_pos)),
  length-window (slot_index s.prod.capacity) blank s.seg.slots s.seg.control.read_pos
      (sub64 s.seg.control.write_pos s.seg.control.read_pos),
  v.prod_capacity,
  v.read_cache_behind,
  v.read_cache_fits,
)

whole_clip :
    (max_msg buf_size : ℕ) (ms : List (ℕ × List ℕ))
    → max_msg ≤ buf_size
    → Within max_msg ms
    → clip buf_size ms ≡ ms
whole_clip max_msg buf_size [] le w = refl
whole_clip max_msg buf_size ((size, bytes) ∷ ms) le (sized, fits, w) =
    ap₂ (λ b t. (size, b) ∷ t) (take_of_short buf_size bytes (omega arith))
      (whole_clip max_msg buf_size ms le w)

-- A segment that `create` gave for 2^k slots of `max_msg` bytes, with both sides attached to it.
module _ (kernel : Kernel) (session k max_msg : ℕ) (seg : Segment) (small : k ≤ 31)
    (created : (create kernel session (2 ^ k) max_msg).0 ≡ done seg)
    (producer_pid consumer_pid buf_size : ℕ) {s : System}
    (r : Reach buf_size (attached producer_pid consumer_pid seg) s) where
  created-IsValid : IsValid k buf_size s
  created-IsValid =
      Reach-IsValid
        (subst (λ g. IsValid k buf_size (attached producer_pid consumer_pid g))
          (create_result kernel session (2 ^ k) max_msg seg created)
          (attached-IsValid buf_size producer_pid consumer_pid session k max_msg small))
        r

  created-max_msg : s.prod.max_msg ≡ max_msg
  unfolding producer consumer fresh
  created-max_msg =
      Reach-max_msg r
      ∙ sym (
          ap (λ g. g.control.max_msg_size)
            (create_result kernel session (2 ^ k) max_msg seg created))

  created-stride : max_msg + 72 ≤ word32 → seg.control.slot_stride ≡ compute_slot_stride max_msg
  unfolding fresh
  created-stride fits =
      sym
        (ap (λ g. g.control.slot_stride) (create_result kernel session (2 ^ k) max_msg seg created))
      ∙ stored_stride max_msg fits

  -- At any moment of any interleaving of the steps of `try_push` and `try_pop`, the messages sent,
  -- each cut to the consumer's buffer, are those received followed by those in the ring, and at
  -- most 2^k of them are in the ring. The segment is one that `create` gave for 2^k slots, k at most
  -- 31, of at most 2^32 - 72 bytes, so that its `slot_stride` is stored whole, and nothing was sent
  -- before.
  pub delivered_in_order :
      max_msg + 72 ≤ word32
      → (seg.control.slot_stride ≡ compute_slot_stride max_msg)
        × (clip buf_size s.sent ≡ s.received ++ clip buf_size (in_ring s))
        × (length (in_ring s) ≤ 2 ^ k)
  delivered_in_order fits =
      let v = created-IsValid in (created-stride fits, v.flow, Reach-capacity v)

  -- On such a segment, when the consumer's buffer holds every message that a slot may carry, the
  -- messages sent are those received, whole and with their sizes, followed by at most 2^k others.
  pub delivered_whole :
      max_msg ≤ buf_size
      → (rest : List (ℕ × List ℕ)) × (s.sent ≡ s.received ++ rest) × (length rest ≤ 2 ^ k)
  delivered_whole roomy = (
    clip buf_size (in_ring s),
    sym (
          whole_clip max_msg buf_size s.sent roomy
            (subst (λ n. Within n s.sent) created-max_msg v.sent_within))
        ∙ v.flow,
    omega (arith, length-map (clipped buf_size) (in_ring s), Reach-capacity v),
  )
    where
      v : IsValid k buf_size s
      v = created-IsValid
