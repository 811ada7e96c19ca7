-- ===== src/Bus/Lossy/Threads.antt =====
-- An OverwriteProducer and a consumer that pops with try_pop_lossy, in any interleaving of their
-- accesses to the slot (spsc_bus/spsc_bus.hpp). The orderings of the source are taken to make the
-- accesses visible in the order in which they are written down.
pub mod Valid
pub mod Writes
pub mod Reads
pub mod Untorn
use message_us_cld.Prelude.{
  ℕ, ◌+◌, ◌%◌, ◌≤◌, ◌<◌, ◌≡◌, Bool, true, false, List, [], ◌∷◌, ◌++◌, ◌==◌, not, ltb, if◌then◌else◌,
  add64, sub64, word32, get_or, set, length,
}
use message_us_cld.Bus.Layout.{slot_index}
use message_us_cld.Bus.Segment.{Segment, Slot}
use message_us_cld.Bus.Endpoints.{Producer, Consumer, blank, publish}
use message_us_cld.Bus.Lossy.{mark_writing, write_over}

-- Where a push stands: its slot is marked, under the generation that it had, or holds the message.
pub data Writing : Type 0 where
  idle written : Writing
  marked : List ℕ → ℕ → Writing

-- Where a pop stands: it has found a position to read, has the first generation, and copies.
pub data Reading : Type 0 where
  waiting looked : Reading
  begun : ℕ → Reading
  copying : ℕ → ℕ → List ℕ → Reading

-- A pop that reported no loss: its position, size and bytes, and how often the generation of its slot
-- was stored to in the meantime.
pub record Accepted : Type 0 where
  pub position : ℕ
  pub size : ℕ
  pub bytes : List ℕ
  pub changes : ℕ

-- `committed` records the messages that were written, with their positions, and `accepted` what the
-- pops returned; `changes` counts the stores to the generation of the consumer's slot since its pop
-- read it first.
pub record System : Type 0 where
  pub seg : Segment
  pub prod : Producer
  pub cons : Consumer
  pub writing : Writing
  pub reading : Reading
  pub committed : List (ℕ × List ℕ)
  pub accepted : List Accepted
  pub changes : ℕ

abbrev pub write_at : System → ℕ
write_at s = slot_index s.prod.capacity s.prod.write_pos

abbrev pub read_at : System → ℕ
read_at s = slot_index s.cons.capacity s.cons.read_pos

abbrev pub slot_of : System → ℕ → Slot
slot_of s i = get_or s.seg.slots i blank

abbrev pub touched : System → ℕ
touched s = if write_at s == read_at s then s.changes + 1 else s.changes

abbrev pub after_mark : System → List ℕ → System
after_mark s msg = record s {
  seg = mark_writing s.seg s.prod;
  writing = marked msg (slot_of s (write_at s)).generation;
  changes = touched s;
}

-- The size and the payload while they are being written may be anything.
abbrev pub after_scribble : System → Slot → System
after_scribble s v = record s {
  seg = record (s.seg) {
    slots =
        set s.seg.slots (write_at s)
          (record v { generation = (slot_of s (write_at s)).generation });
  };
}

abbrev pub after_commit : System → List ℕ → ℕ → System
after_commit s msg g = record s {
  seg = write_over s.seg s.prod msg g;
  writing = written;
  committed = s.committed ++ ((s.prod.write_pos, msg) ∷ []);
  changes = touched s;
}

abbrev pub after_publish : System → System
after_publish s =
    let (p, seg) = publish s.seg s.prod in record s { seg = seg; prod = p; writing = idle }

-- read_pos_ set and stored, and the pop over.
abbrev pub moved : System → Consumer → ℕ → System
moved s c pos = record s {
  seg = record (s.seg) { control = record (s.seg.control) { read_pos = pos } };
  cons = record c { read_pos = pos };
  reading = waiting;
}

-- The write position known to the consumer, looked up when there is nothing left up to it.
abbrev pub refreshed : System → Consumer
refreshed s =
    if s.cons.read_pos == s.cons.write_cache
    then record (s.cons) { write_cache = s.seg.control.write_pos }
    else s.cons

abbrev pub after_look : System → System
after_look s =
    let c = refreshed s in
    if c.read_pos == c.write_cache
    then record s { cons = c }
    else if ltb c.capacity (sub64 c.write_cache c.read_pos)
    then moved s c (sub64 c.write_cache c.capacity)
    else record s { cons = c; reading = looked }

abbrev pub after_begin : System → System
after_begin s =
    let gen1 = (slot_of s (read_at s)).generation in
    if gen1 % 2 == 1
    then record s { reading = waiting }
    else record s { reading = begun gen1; changes = 0 }

abbrev pub after_size : System → ℕ → System
after_size s gen1 = record s { reading = copying gen1 (slot_of s (read_at s)).size [] }

-- memcpy reads the payload a byte at a time.
abbrev pub after_byte : System → ℕ → ℕ → List ℕ → System
after_byte s gen1 size bytes = record s {
  reading =
      copying gen1 size (bytes ++ (get_or (slot_of s (read_at s)).payload (length bytes) 0 ∷ []));
}

abbrev pub copy_size : ℕ → ℕ → ℕ
copy_size buf_size size = if ltb size buf_size then size else buf_size

-- The second look at the generation.
abbrev pub after_confirm : System → ℕ → ℕ → List ℕ → System
after_confirm s gen1 size bytes =
    let latest = s.seg.control.write_pos in
    let newest = if ltb s.cons.capacity latest then sub64 latest s.cons.capacity else latest in
    let t = moved s s.cons (add64 s.cons.read_pos 1) in
    if not ((slot_of s (read_at s)).generation == gen1)
    then moved s (record (s.cons) { write_cache = latest }) newest
    else record t {
      accepted =
          s.accepted
          ++ (record { position = s.cons.read_pos; size = size; bytes = bytes; changes = s.changes }
              ∷ []);
    }

-- One access of either side.
pub data Step (buf_size : ℕ) (s t : System) : Type 0 where
  marks :
      (msg : List ℕ)
      → s.writing ≡ idle
      → length msg ≤ s.prod.max_msg
      → t ≡ after_mark s msg
      → Step buf_size s t
  scribbles :
      (msg : List ℕ) (g : ℕ) (v : Slot)
      → s.writing ≡ marked msg g
      → t ≡ after_scribble s v
      → Step buf_size s t
  commits :
      (msg : List ℕ) (g : ℕ)
      → s.writing ≡ marked msg g
      → t ≡ after_commit s msg g
      → Step buf_size s t
  publishes : s.writing ≡ written → t ≡ after_publish s → Step buf_size s t
  looks : s.reading ≡ waiting → t ≡ after_look s → Step buf_size s t
  begins : s.reading ≡ looked → t ≡ after_begin s → Step buf_size s t
  reads_size : (gen1 : ℕ) → s.reading ≡ begun gen1 → t ≡ after_size s gen1 → Step buf_size s t
  reads_byte :
      (gen1 size : ℕ) (bytes : List ℕ)
      → s.reading ≡ copying gen1 size bytes
      → length bytes < copy_size buf_size size
      → t ≡ after_byte s gen1 size bytes
      → Step buf_size s t
  confirms :
      (gen1 size : ℕ) (bytes : List ℕ)
      → s.reading ≡ copying gen1 size bytes
      → length bytes ≡ copy_size buf_size size
      → t ≡ after_confirm s gen1 size bytes
      → Step buf_size s t

pub data Reach (buf_size : ℕ) (s : System) : System → Type 0 where
  here : Reach buf_size s s
  next : {t u : System} → Reach buf_size s t → Step buf_size t u → Reach buf_size s u
