-- ===== src/Bus/Lossy.antt =====
-- spsc_bus/spsc_bus.hpp: OverwriteProducer and Consumer::try_pop_lossy.
pub mod Whole
pub mod Threads
use message_us_cld.Prelude.{
  ℕ, ◌+◌, ◌%◌, Bool, true, false, List, [], ◌++◌, ◌==◌, not, ltb, if◌then◌else◌, add64, sub64,
  word32, get_or, set, take, drop, length,
}
use message_us_cld.Bus.Layout.{slot_index}
use message_us_cld.Bus.Segment.{Segment, Slot}
use message_us_cld.Bus.Endpoints.{Producer, Consumer, blank, overwrite, publish}

-- OverwriteProducer has the fields of Producer. Its slot goes to an odd generation, is written, and
-- goes to the next even one.
unfoldable pub mark_writing : Segment → Producer → Segment
mark_writing seg p = record seg {
  slots = set seg.slots at (record slot { generation = (slot.generation + 1) % word32 });
}
  where
    at : ℕ
    at = slot_index p.capacity p.write_pos

    slot : Slot
    slot = get_or seg.slots at blank

-- Under the same condition on the stride as the slots of a Segment.
unfoldable pub write_over : Segment → Producer → List ℕ → ℕ → Segment
write_over seg p msg g = record seg {
  slots = set seg.slots at (record (overwrite slot msg) { generation = (g + 2) % word32 });
}
  where
    at : ℕ
    at = slot_index p.capacity p.write_pos

    slot : Slot
    slot = get_or seg.slots at blank

unfoldable pub overwrite_push : Segment → Producer → List ℕ → Bool × Producer × Segment
overwrite_push seg p msg =
    let g = (get_or seg.slots (slot_index p.capacity p.write_pos) blank).generation in
    let (p', seg') = publish (write_over (mark_writing seg p) p msg g) p in
    if ltb p.max_msg (length msg) then (false, p, seg) else (true, p', seg')

-- What try_pop_lossy returns: the size, the bytes copied, and `*overwritten`.
pub record Popped : Type 0 where
  pub size : ℕ
  pub bytes : List ℕ
  pub overwritten : Bool

-- The result, with read_pos_ set and stored.
unfoldable pub move_to : Popped → Segment → Consumer → ℕ → Popped × Consumer × Segment
move_to result seg c pos = (
  result,
  record c { read_pos = pos },
  record seg { control = record (seg.control) { read_pos = pos } },
)

-- `seg` is what the call sees up to the copy, and `later` what it sees from there on.
unfoldable pub try_pop_lossy : Segment → Segment → Consumer → ℕ → Popped × Consumer × Segment
try_pop_lossy seg later c buf_size =
    let c1 =
      if c.read_pos == c.write_cache then record c { write_cache = seg.control.write_pos } else c in
    let at = slot_index c1.capacity c1.read_pos in
    let slot = get_or seg.slots at blank in
    let gen2 = (get_or later.slots at blank).generation in
    let bytes = take (if ltb slot.size buf_size then slot.size else buf_size) slot.payload in
    let latest = later.control.write_pos in
    let newest = if ltb c1.capacity latest then sub64 latest c1.capacity else latest in
    if c1.read_pos == c1.write_cache
    then (record { size = 0; bytes = []; overwritten = false }, c1, later)
    else if ltb c1.capacity (sub64 c1.write_cache c1.read_pos)
    then move_to (record { size = 0; bytes = []; overwritten = true }) later c1
        (sub64 c1.write_cache c1.capacity)
    else if slot.generation % 2 == 1
    then (record { size = 0; bytes = []; overwritten = false }, c1, later)
    else if not (gen2 == slot.generation)
    then move_to (record { size = 0; bytes = bytes; overwritten = true }) later
        (record c1 { write_cache = latest }) newest
    else move_to (record { size = slot.size; bytes = bytes; overwritten = false }) later c1
        (add64 c1.read_pos 1)
