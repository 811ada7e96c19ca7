-- ===== src/Bus/Threads.antt =====
-- A producer and a consumer on one bus, in any interleaving of their steps. The acquire and release
-- orderings of the source are taken to make each step's accesses visible in that order.
pub mod Valid
pub mod Writing
pub mod Publishing
pub mod Reading
pub mod Order
pub mod Push
pub mod Pop
use message_us_cld.Prelude.{
  ℕ, ◌≡◌, Bool, true, false, List, [], ◌∷◌, ◌++◌, if◌then◌else◌, length, set,
}
use message_us_cld.Bus.Layout.{slot_index}
use message_us_cld.Bus.Segment.{Segment, Slot}
use message_us_cld.Bus.Endpoints.{
  Producer, Consumer, reserve, fill, publish, arrived, copy_out, release,
}

-- Where each side stands inside `try_push` and `try_pop`.
pub data Pushing : Type 0 where
  idle : Pushing
  reserved filled : List ℕ → Pushing

pub data Popping : Type 0 where
  waiting ready : Popping
  copied : ℕ → List ℕ → Popping

-- `sent` and `received` record the completed calls: the size and the bytes that `try_push` was given
-- and that `try_pop` returned.
pub record System : Type 0 where
  pub seg : Segment
  pub prod : Producer
  pub cons : Consumer
  pub pushing : Pushing
  pub popping : Popping
  pub sent : List (ℕ × List ℕ)
  pub received : List (ℕ × List ℕ)

-- The step of each side between two accesses to the shared state.
abbrev pub after_reserve : System → List ℕ → System
after_reserve s msg =
    let (room, p) = reserve s.seg s.prod (length msg) in
    record s { prod = p; pushing = if room then reserved msg else idle }

-- The slot while it is being written may hold anything.
abbrev pub after_scribble : System → Slot → System
after_scribble s v = record s {
  seg = record (s.seg) { slots = set s.seg.slots (slot_index s.prod.capacity s.prod.write_pos) v };
}

abbrev pub after_fill : System → List ℕ → System
after_fill s msg = record s { seg = fill s.seg s.prod msg; pushing = filled msg }

abbrev pub after_publish : System → List ℕ → System
after_publish s msg =
    let (p, g) = publish s.seg s.prod in
    record s { seg = g; prod = p; pushing = idle; sent = s.sent ++ ((length msg, msg) ∷ []) }

abbrev pub after_check : System → System
after_check s =
    let (some_left, c) = arrived s.seg s.cons in
    record s { cons = c; popping = if some_left then ready else waiting }

abbrev pub after_copy : ℕ → System → System
after_copy buf_size s =
    let (size, bytes) = copy_out s.seg s.cons buf_size in record s { popping = copied size bytes }

abbrev pub after_release : System → ℕ → List ℕ → System
after_release s size bytes =
    let (c, g) = release s.seg s.cons in
    record s { seg = g; cons = c; popping = waiting; received = s.received ++ ((size, bytes) ∷ []) }

-- One step of either side; the consumer reads into buffers of `buf_size` bytes.
pub data Step (buf_size : ℕ) (s t : System) : Type 0 where
  reserves : (msg : List ℕ) → s.pushing ≡ idle → t ≡ after_reserve s msg → Step buf_size s t
  scribbles :
      (msg : List ℕ) (v : Slot)
      → s.pushing ≡ reserved msg
      → t ≡ after_scribble s v
      → Step buf_size s t
  fills : (msg : List ℕ) → s.pushing ≡ reserved msg → t ≡ after_fill s msg → Step buf_size s t
  publishes : (msg : List ℕ) → s.pushing ≡ filled msg → t ≡ after_publish s msg → Step buf_size s t
  checks : s.popping ≡ waiting → t ≡ after_check s → Step buf_size s t
  copies : s.popping ≡ ready → t ≡ after_copy buf_size s → Step buf_size s t
  releases :
      (size : ℕ) (bytes : List ℕ)
      → s.popping ≡ copied size bytes
      → t ≡ after_release s size bytes
      → Step buf_size s t

pub data Reach (buf_size : ℕ) (s : System) : System → Type 0 where
  here : Reach buf_size s s
  next : {t u : System} → Reach buf_size s t → Step buf_size t u → Reach buf_size s u
