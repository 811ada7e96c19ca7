-- ===== src/Bus/Lossy/Whole.antt =====
-- What an overwriting push leaves in its slot, and what a lossy pop lets through.
use message_us_cld.Prelude.{
  ℕ, ◌+◌, ◌%◌, ◌≤◌, ◌<◌, ◌≡◌, ◌≢◌, refl, ap, ◌∙◌, arith, true, false, List, add64, word32, get_or,
  drop, length, length-set, get_or-set_self, get_or-set_ne, take-append,
}
use message_us_cld.Bus.Layout.{slot_index, compute_slot_stride}
use message_us_cld.Bus.Segment.{Segment, Slot}
use message_us_cld.Bus.Endpoints.{Producer, Consumer, blank, overwrite, publish}
use message_us_cld.Bus.Threads.Valid.{message}
use message_us_cld.Bus.Lossy.{mark_writing, write_over, overwrite_push, move_to, try_pop_lossy}

module _ (seg : Segment) (p : Producer) (msg : List ℕ) where
  abbrev at : ℕ
  at = slot_index p.capacity p.write_pos

  abbrev after : Segment
  after = (overwrite_push seg p msg).2

  accepted : length msg ≤ p.max_msg → (overwrite_push seg p msg).0 ≡ true
  unfolding overwrite_push
  accepted fits = ground (arith, fits)

  pushed_slots :
      length msg ≤ p.max_msg
      → after.slots
        ≡ (write_over (mark_writing seg p) p msg (get_or seg.slots at blank).generation).slots
  unfolding overwrite_push publish
  pushed_slots fits = ground (arith, fits)

  abbrev old : Slot
  old = get_or seg.slots at blank

  abbrev whole : Slot
  whole = record (overwrite (get_or (mark_writing seg p).slots at blank) msg) {
    generation = (old.generation + 2) % word32;
  }

  written : length msg ≤ p.max_msg → at < length seg.slots → get_or after.slots at blank ≡ whole
  unfolding write_over mark_writing
  written fits there =
      ap (λ ss. get_or ss at blank) (pushed_slots fits)
      ∙ get_or-set_self (mark_writing seg p).slots at whole blank (
          omega (
            arith,
            there,
            length-set seg.slots at (record old { generation = (old.generation + 1) % word32 }),
          ))

  whole_message : message whole ≡ (length msg, msg)
  unfolding overwrite
  whole_message =
      ap (λ bytes. (length msg, bytes))
        (take-append (length msg) msg
          (drop (length msg) (get_or (mark_writing seg p).slots at blank).payload) refl)

  others :
      length msg ≤ p.max_msg
      → (i : ℕ) → at ≢ i
      → get_or after.slots i blank ≡ get_or seg.slots i blank
  unfolding write_over mark_writing
  others fits i ne =
      ap (λ ss. get_or ss i blank) (pushed_slots fits)
      ∙ get_or-set_ne (mark_writing seg p).slots at i whole blank ne
      ∙ get_or-set_ne seg.slots at i (record old { generation = (old.generation + 1) % word32 })
          blank ne

  moved_on :
      length msg ≤ p.max_msg
      → ((overwrite_push seg p msg).1.write_pos ≡ add64 p.write_pos 1)
        × (after.control.write_pos ≡ add64 p.write_pos 1)
  unfolding overwrite_push publish
  moved_on fits = ground (arith, fits)

  -- The slot while it is being written: a reader can tell, and what it held is still there.
  abbrev marked : Slot
  marked = get_or (mark_writing seg p).slots at blank

  marked_eq :
      at < length seg.slots → marked ≡ record old { generation = (old.generation + 1) % word32 }
  unfolding mark_writing
  marked_eq there =
      get_or-set_self seg.slots at (record old { generation = (old.generation + 1) % word32 }) blank
        there

  -- A message within the limit always gets in, whether the ring is full or not, on a producer whose
  -- stride is the whole one. Its slot, one of the segment's and of an even generation, is odd, with
  -- its old message, once it is marked, and then holds the new message whole, under the generation two
  -- after the old one, again even; every other slot is as it was, and the write position has moved on
  -- by one, in the producer and in the control block.
  pub overwrite_push_lem :
      p.stride ≡ compute_slot_stride p.max_msg
      → length msg ≤ p.max_msg
      → at < length seg.slots
      → old.generation % 2 ≡ 0
      → ((overwrite_push seg p msg).0 ≡ true)
        × (marked.generation % 2 ≡ 1)
        × (message marked ≡ message old)
        × (message (get_or after.slots at blank) ≡ (length msg, msg))
        × ((get_or after.slots at blank).generation ≡ (old.generation + 2) % word32)
        × ((get_or after.slots at blank).generation % 2 ≡ 0)
        × ((i : ℕ) → at ≢ i → get_or after.slots i blank ≡ get_or seg.slots i blank)
        × ((overwrite_push seg p msg).1.write_pos ≡ add64 p.write_pos 1)
        × (after.control.write_pos ≡ add64 p.write_pos 1)
  overwrite_push_lem stride fits there even = (
    accepted fits,
    ap (λ s. s.generation % 2) (marked_eq there) ∙ omega (arith, even),
    ap message (marked_eq there),
    ap message (written fits there) ∙ whole_message,
    ap (λ s. s.generation) (written fits there),
    ap (λ s. s.generation % 2) (written fits there) ∙ omega (arith, even),
    others fits,
    (moved_on fits).0,
    (moved_on fits).1,
  )

-- A lossy pop that reports no loss and a size above 0 saw an even generation in its slot and the same
-- one after the copy, and moved on by one position.
pub try_pop_lossy-stable :
    (seg later : Segment) (c : Consumer) (buf_size : ℕ)
    → (try_pop_lossy seg later c buf_size).0.overwritten ≡ false
    → 0 < (try_pop_lossy seg later c buf_size).0.size
    → ((get_or seg.slots (slot_index c.capacity c.read_pos) blank).generation % 2 ≢ 1)
      × ((get_or later.slots (slot_index c.capacity c.read_pos) blank).generation
          ≡ (get_or seg.slots (slot_index c.capacity c.read_pos) blank).generation)
      × ((try_pop_lossy seg later c buf_size).1.read_pos ≡ add64 c.read_pos 1)
unfolding try_pop_lossy move_to
try_pop_lossy-stable seg later c buf_size none some = ground (arith, none, some)
