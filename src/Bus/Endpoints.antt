-- ===== src/Bus/Endpoints.antt =====
-- spsc_bus/spsc_bus.hpp: Producer and Consumer. `try_push` and `try_pop` are put together from the
-- steps between their accesses to the shared positions, which is where the other side can come in.
use message_us_cld.Prelude.{
  ℕ, Bool, true, false, List, [], ◌++◌, ◌==◌, ltb, leb, not, if◌then◌else◌, add64, sub64, get_or,
  set, take, drop, length,
}
use message_us_cld.Bus.Layout.{slot_index}
use message_us_cld.Bus.Segment.{Segment, Slot}

-- What a read outside the slots would give; the positions are masked, so none is made.
abbrev pub blank : Slot
blank = record { generation = 0; size = 0; payload = [] }

pub record Producer : Type 0 where
  pub capacity : ℕ
  pub stride : ℕ
  pub max_msg : ℕ
  pub write_pos : ℕ
  pub read_cache : ℕ

pub record Consumer : Type 0 where
  pub capacity : ℕ
  pub stride : ℕ
  pub max_msg : ℕ
  pub read_pos : ℕ
  pub write_cache : ℕ

-- The constructors, which register the process.
unfoldable pub producer : ℕ → Segment → Producer × Segment
producer pid seg = (
  record {
    capacity = control.capacity;
    stride = control.slot_stride;
    max_msg = control.max_msg_size;
    write_pos = control.write_pos;
    read_cache = control.read_pos;
  },
  record seg { control = record control { producer_pid = pid } },
)
  where
    open seg use {control}

unfoldable pub consumer : ℕ → Segment → Consumer × Segment
consumer pid seg = (
  record {
    capacity = control.capacity;
    stride = control.slot_stride;
    max_msg = control.max_msg_size;
    read_pos = control.read_pos;
    write_cache = control.write_pos;
  },
  record seg { control = record control { consumer_pid = pid } },
)
  where
    open seg use {control}

-- Whether there is room for a message of `size` bytes, by the cached read position first.
unfoldable pub reserve : Segment → Producer → ℕ → Bool × Producer
reserve seg p size =
    if ltb p.max_msg size
    then (false, p)
    else if leb p.capacity (sub64 p.write_pos p.read_cache)
    then (ltb (sub64 p.write_pos latest) p.capacity, record p { read_cache = latest })
    else (true, p)
  where
    latest : ℕ
    latest = seg.control.read_pos

-- memcpy of a message over the beginning of a payload.
unfoldable pub overwrite : Slot → List ℕ → Slot
overwrite slot msg = record slot {
  size = length msg;
  payload = msg ++ drop (length msg) slot.payload;
}

-- The slot at the write position, where the stride of the producer keeps the slots apart (Segment).
unfoldable pub fill : Segment → Producer → List ℕ → Segment
unfolding overwrite
fill seg p msg = record seg { slots = set seg.slots at (overwrite (get_or seg.slots at blank) msg) }
  where
    at : ℕ
    at = slot_index p.capacity p.write_pos

unfoldable pub publish : Segment → Producer → Producer × Segment
publish seg p = (
  record p { write_pos = add64 p.write_pos 1 },
  record seg { control = record control { write_pos = add64 p.write_pos 1 } },
)
  where
    open seg use {control}

-- `msg` is the payload; its length is the `size` argument.
unfoldable pub try_push : Segment → Producer → List ℕ → Bool × Producer × Segment
try_push seg p msg =
    let (room, p') = reserve seg p (length msg) in
    if room
    then (let (p'', seg') = publish (fill seg p' msg) p' in (true, p'', seg'))
    else (false, p', seg)

-- Whether there is a message, by the cached write position first.
unfoldable pub arrived : Segment → Consumer → Bool × Consumer
arrived seg c =
    if c.read_pos == c.write_cache
    then (not (c.read_pos == latest), record c { write_cache = latest })
    else (true, c)
  where
    latest : ℕ
    latest = seg.control.write_pos

-- The size of the message, and the bytes copied to a buffer of `buf_size`.
unfoldable pub copy_out : Segment → Consumer → ℕ → ℕ × List ℕ
copy_out seg c buf_size =
    (slot.size, take (if ltb slot.size buf_size then slot.size else buf_size) slot.payload)
  where
    slot : Slot
    slot = get_or seg.slots (slot_index c.capacity c.read_pos) blank

unfoldable pub release : Segment → Consumer → Consumer × Segment
release seg c = (
  record c { read_pos = add64 c.read_pos 1 },
  record seg { control = record control { read_pos = add64 c.read_pos 1 } },
)
  where
    open seg use {control}

-- The returned size, what is written to the buffer, and the new state.
unfoldable pub try_pop : Segment → Consumer → ℕ → ℕ × List ℕ × Consumer × Segment
try_pop seg c buf_size =
    let (some_left, c') = arrived seg c in
    if some_left
    then (let (size, bytes) = copy_out seg c' buf_size in
        let (c'', seg') = release seg c' in (size, bytes, c'', seg'))
    else (0, [], c', seg)
