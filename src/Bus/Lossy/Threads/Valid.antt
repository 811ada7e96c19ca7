-- ===== src/Bus/Lossy/Threads/Valid.antt =====
-- What holds between any two accesses of an overwriting producer and a lossy consumer.
use mathlib.Core.List.{Memᴰ}
use message_us_cld.Prelude.{
  ℕ, zero, suc, ◌+◌, ◌%◌, ◌^◌, ◌≤◌, ◌<◌, ◌≡◌, ◌≢◌, ◌⊎◌, List, [], ◌∷◌, ◌++◌, length, take, get_or,
  word32,
}
use message_us_cld.Bus.Layout.{slot_index}
use message_us_cld.Bus.Segment.{Slot}
use message_us_cld.Bus.Threads.Valid.{message}
use message_us_cld.Bus.Lossy.Threads.{
  Writing, idle, written, marked, Reading, waiting, looked, begun, copying, Accepted, System,
  write_at, read_at, slot_of,
}

-- A slot that is not being written: it was never used, or it holds a message that was committed to it.
abbrev pub Whole : ℕ → List (ℕ × List ℕ) → ℕ → Slot → Type 0
Whole capacity committed i slot =
    (slot.generation % 2 ≡ 0)
    × (slot.generation < word32)
    × ((slot.size ≡ 0)
        ⊎ ((pos : ℕ) × (msg : List ℕ) × Memᴰ (pos, msg) committed
            × (slot_index capacity pos ≡ i)
            × (message slot ≡ (length msg, msg))))

-- Whether a slot is not being written.
abbrev pub Closed : Writing → ℕ → ℕ → Type 0
Closed idle at i = Unit {0}
Closed written at i = Unit {0}
Closed (marked msg g) at i = i ≢ at

abbrev pub MarkOk : Writing → Slot → Type 0
MarkOk idle slot = Unit {0}
MarkOk written slot = Unit {0}
MarkOk (marked msg g) slot = (g % 2 ≡ 0) × (g < word32) × (slot.generation ≡ (g + 1) % word32)

-- The bytes of a payload up to an index, 0 behind its end.
abbrev pub read_bytes : ℕ → List ℕ → List ℕ
read_bytes zero payload = []
read_bytes (suc n) payload = read_bytes n payload ++ (get_or payload n 0 ∷ [])

-- The first generation, and how far the slot has gone from it.
abbrev pub Snapped : ℕ → ℕ → Slot → Type 0
Snapped gen1 changes slot =
    (gen1 % 2 ≡ 0) × (gen1 < word32) × (slot.generation ≡ (gen1 + changes) % word32)

-- As long as the generation was not stored to, what was read is what the slot holds.
abbrev pub ReadOk : Reading → ℕ → Slot → Type 0
ReadOk waiting changes slot = Unit {0}
ReadOk looked changes slot = Unit {0}
ReadOk (begun gen1) changes slot = Snapped gen1 changes slot
ReadOk (copying gen1 size bytes) changes slot =
    Snapped gen1 changes slot
    × (changes ≡ 0 → (size ≡ slot.size) × (bytes ≡ read_bytes (length bytes) slot.payload))

-- What a pop returned was committed to the slot of its position, whole, as far as the buffer goes.
abbrev pub Untorn : ℕ → ℕ → List (ℕ × List ℕ) → Accepted → Type 0
Untorn capacity buf_size committed a =
    (a.size ≡ 0)
    ⊎ ((pos : ℕ) × (msg : List ℕ) × Memᴰ (pos, msg) committed
        × (slot_index capacity pos ≡ slot_index capacity a.position)
        × (a.size ≡ length msg)
        × (a.bytes ≡ take buf_size msg))

abbrev pub AllUntorn : ℕ → ℕ → List (ℕ × List ℕ) → List Accepted → Type 0
AllUntorn capacity buf_size committed [] = Unit {0}
AllUntorn capacity buf_size committed (a ∷ as_left) =
    Untorn capacity buf_size committed a × AllUntorn capacity buf_size committed as_left

-- During each pop there were fewer than 2^32 stores to the generation of its slot, two for each push.
abbrev pub FewChanges : List Accepted → Type 0
FewChanges [] = Unit {0}
FewChanges (a ∷ as_left) = (a.changes < word32) × FewChanges as_left

pub record IsValid (k buf_size : ℕ) (s : System) : Type 0 where
  pub small : k ≤ 31
  pub prod_capacity : s.prod.capacity ≡ 2 ^ k
  pub cons_capacity : s.cons.capacity ≡ 2 ^ k
  pub storage : length s.seg.slots ≡ 2 ^ k
  pub closed : (i : ℕ) → Closed s.writing (write_at s) i → Whole (2 ^ k) s.committed i (slot_of s i)
  pub mark_ok : MarkOk s.writing (slot_of s (write_at s))
  pub read_ok : ReadOk s.reading s.changes (slot_of s (read_at s))
  pub untorn : FewChanges s.accepted → AllUntorn (2 ^ k) buf_size s.committed s.accepted
