-- ===== src/Bus/Lossy/Threads/Untorn.antt =====
-- What lossy pops return, in any interleaving with the pushes (spsc_bus/spsc_bus.hpp).
use mathlib.Core.List.Memᴰ
use message_us_cld.Prelude.{
  ℕ, ◌+◌, ◌%◌, ◌^◌, ◌≤◌, ◌<◌, ◌≡◌, inl, inr, refl, sym, ap, ◌∙◌, subst, arith, List, [], length,
  take, get_or, word32, sub64, ◌==◌, ◌∷◌, ◌++◌, ltb, not, if◌then◌else◌, if-cases, length-replicate,
  replicate, zero, suc,
}
use message_us_cld.Bus.Layout.{slot_index}
use message_us_cld.Bus.Segment.{Segment, Slot, fresh, zero_slot}
use message_us_cld.Bus.Endpoints.{blank, producer, consumer}
use message_us_cld.Bus.Lossy.Threads.{
  System, Accepted, idle, waiting, copying, read_at, slot_of, after_confirm, copy_size, Step, marks,
  scribbles, commits, publishes, looks, begins, reads_size, reads_byte, confirms, Reach, here, next,
}
use message_us_cld.Bus.Lossy.Threads.Valid.{
  FewChanges, Whole, Untorn, AllUntorn, IsValid, read_bytes,
}
use message_us_cld.Bus.Lossy.Threads.Writes.{
  mark-IsValid, scribble-IsValid, commit-IsValid, publish-IsValid,
}
use message_us_cld.Bus.Lossy.Threads.Reads.{
  look-IsValid, begin-IsValid, size-IsValid, byte-IsValid, over, even_closed, copying_ok, take-take,
  length-take_le, read_bytes-take, AllUntorn-snoc,
}

-- What was copied from a slot that did not change, up to the size of the buffer.
copied-Whole :
    (capacity buf_size position i size changes : ℕ) (committed : List (ℕ × List ℕ)) (bytes : List ℕ)
    (slot : Slot)
    → slot_index capacity position ≡ i
    → Whole capacity committed i slot
    → size ≡ slot.size
    → bytes ≡ read_bytes (length bytes) slot.payload
    → length bytes ≡ copy_size buf_size size
    → Untorn capacity buf_size committed
        (record { position = position; size = size; bytes = bytes; changes = changes })
copied-Whole capacity buf_size position i size changes committed bytes slot at
      (even, range, inl empty) same_size same count =
    inl (same_size ∙ empty)
copied-Whole capacity buf_size position i size changes committed bytes slot at
      (even, range, inr (pos, msg, m, home, holds)) same_size same count =
    let size_eq : slot.size ≡ length msg = ap (λ q. q.0) holds in
    let bytes_eq : take slot.size slot.payload ≡ msg = ap (λ q. q.1) holds in
    let room : slot.size ≤ length slot.payload =
      omega (arith, size_eq, ap length bytes_eq, length-take_le slot.size slot.payload) in
    let fits : length bytes ≤ length slot.payload = ground (arith, count, same_size, room) in
    inr (
      pos,
      msg,
      m,
      home ∙ sym at,
      same_size ∙ size_eq,
      same
          ∙ read_bytes-take (length bytes) slot.payload fits
          ∙ ap (λ n. take n slot.payload) (count ∙ ap (copy_size buf_size) same_size)
          ∙ sym (take-take buf_size slot.size slot.payload)
          ∙ ap (take buf_size) bytes_eq,
    )

FewChanges-split :
    (as_left : List Accepted) (a : Accepted)
    → FewChanges (as_left ++ (a ∷ []))
    → FewChanges as_left × (a.changes < word32)
FewChanges-split [] a (few, none) = (tt, few)
FewChanges-split (b ∷ as_left) a (few_b, few) =
    let (first, last) = FewChanges-split as_left a few in ((few_b, first), last)

module _ {k buf_size : ℕ} {s : System} (v : IsValid k buf_size s) where
  confirm-IsValid :
      (gen1 size : ℕ) (bytes : List ℕ)
      → s.reading ≡ copying gen1 size bytes
      → length bytes ≡ copy_size buf_size size
      → IsValid k buf_size (after_confirm s gen1 size bytes)
  confirm-IsValid gen1 size bytes e count =
      let latest = s.seg.control.write_pos in
      let slot = slot_of s (read_at s) in
      let ((even, range, gone), same) = copying_ok v gen1 size bytes e in
      if-cases (IsValid k buf_size) (not (slot.generation == gen1))
        (λ changed.
          over v (record (s.cons) { write_cache = latest }) waiting
            (if ltb s.cons.capacity latest then sub64 latest s.cons.capacity else latest) refl
            (λ n slot. tt))
        (λ kept.
          let gen : slot.generation ≡ gen1 = ground (arith, kept) in
          let whole = even_closed v s.writing refl (read_at s) (ap (λ g. g % 2) gen ∙ even) in
          let last : Accepted = record {
            position = s.cons.read_pos;
            size = size;
            bytes = bytes;
            changes = s.changes;
          } in
          record {
            small = v.small;
            prod_capacity = v.prod_capacity;
            cons_capacity = v.cons_capacity;
            storage = v.storage;
            closed = v.closed;
            mark_ok = v.mark_ok;
            read_ok = tt;
            untorn = λ all_few.
                let (before, few) = FewChanges-split s.accepted last all_few in
                let none : s.changes ≡ 0 = omega (arith, gen, gone, range, few) in
                AllUntorn-snoc (2 ^ k) buf_size s.committed s.accepted last (v.untorn before) (
                  copied-Whole (2 ^ k) buf_size s.cons.read_pos (read_at s) size s.changes
                    s.committed bytes slot
                    (ap (λ c. slot_index c s.cons.read_pos) (sym v.cons_capacity)) whole
                    (same none).0 (same none).1 count);
          })

module _ {k buf_size : ℕ} where
  Step-IsValid : {s t : System} → IsValid k buf_size s → Step buf_size s t → IsValid k buf_size t
  Step-IsValid v (marks msg e fits eq) = subst (IsValid k buf_size) (sym eq) (mark-IsValid v msg e)
  Step-IsValid v (scribbles msg g x e eq) =
      subst (IsValid k buf_size) (sym eq) (scribble-IsValid v msg g x e)
  Step-IsValid v (commits msg g e eq) =
      subst (IsValid k buf_size) (sym eq) (commit-IsValid v msg g e)
  Step-IsValid v (publishes e eq) = subst (IsValid k buf_size) (sym eq) (publish-IsValid v e)
  Step-IsValid v (looks e eq) = subst (IsValid k buf_size) (sym eq) (look-IsValid v e)
  Step-IsValid v (begins e eq) = subst (IsValid k buf_size) (sym eq) (begin-IsValid v e)
  Step-IsValid v (reads_size gen1 e eq) =
      subst (IsValid k buf_size) (sym eq) (size-IsValid v gen1 e)
  Step-IsValid v (reads_byte gen1 size bytes e more eq) =
      subst (IsValid k buf_size) (sym eq) (byte-IsValid v gen1 size bytes e)
  Step-IsValid v (confirms gen1 size bytes e count eq) =
      subst (IsValid k buf_size) (sym eq) (confirm-IsValid v gen1 size bytes e count)

  Reach-IsValid : {s t : System} → IsValid k buf_size s → Reach buf_size s t → IsValid k buf_size t
  Reach-IsValid v here = v
  Reach-IsValid v (next r step) = Step-IsValid (Reach-IsValid v r) step

-- An overwriting producer and a lossy consumer attached to a fresh segment.
abbrev pub lossy_start : ℕ → ℕ → Segment → System
lossy_start producer_pid consumer_pid seg =
    let (p, seg') = producer producer_pid seg in
    let (c, seg'') = consumer consumer_pid seg' in
    record {
      seg = seg'';
      prod = p;
      cons = c;
      writing = idle;
      reading = waiting;
      committed = [];
      accepted = [];
      changes = 0;
    }

fresh-Whole :
    (k max_msg i n : ℕ) → Whole (2 ^ k) [] i (get_or (replicate n (zero_slot max_msg)) i blank)
unfolding zero_slot
fresh-Whole k max_msg i zero = (refl, omega arith, inl refl)
fresh-Whole k max_msg zero (suc n) = (refl, omega arith, inl refl)
fresh-Whole k max_msg (suc i) (suc n) =
    let (even, range, rest) = fresh-Whole k max_msg i n in
    (
      even,
      range,
      elim rest [
        | inl empty ↦ inl empty
        | inr (pos, msg, m, other, same) ↦ absurd (Memᴰ.not-nil m)
      ],
    )

start-IsValid :
    (buf_size producer_pid consumer_pid session k max_msg : ℕ)
    → k ≤ 31
    → IsValid k buf_size (lossy_start producer_pid consumer_pid (fresh session (2 ^ k) max_msg))
unfolding fresh producer consumer
start-IsValid buf_size producer_pid consumer_pid session k max_msg small = record {
  small = small;
  prod_capacity = refl;
  cons_capacity = refl;
  storage = length-replicate (2 ^ k) (zero_slot max_msg);
  closed = λ i c. fresh-Whole k max_msg i (2 ^ k);
  mark_ok = tt;
  read_ok = tt;
  untorn = λ few. tt;
}

-- On a new segment of 2^k slots, k at most 31, for messages of at most 2^32 - 72 bytes, in any
-- interleaving of the accesses of an overwriting producer and a lossy consumer, where fewer than 2^31
-- pushes go into a slot during one pop of it: what a pop returned without reporting a loss is of size
-- 0, or is one of the messages that were written, into the slot of the pop's position, with its size
-- and its own bytes as far as the buffer goes: never a mixture of two messages.
pub accepted-AllUntorn :
    (producer_pid consumer_pid session k max_msg buf_size : ℕ) (s : System)
    → k ≤ 31
    → max_msg + 72 ≤ word32
    → Reach buf_size (lossy_start producer_pid consumer_pid (fresh session (2 ^ k) max_msg)) s
    → FewChanges s.accepted
    → AllUntorn (2 ^ k) buf_size s.committed s.accepted
accepted-AllUntorn producer_pid consumer_pid session k max_msg buf_size s small fits r few =
    (Reach-IsValid (start-IsValid buf_size producer_pid consumer_pid session k max_msg small)
        r).untorn
      few
