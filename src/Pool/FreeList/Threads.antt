-- ===== src/Pool/FreeList/Threads.antt =====
-- memory_pool/memory_pool.hpp: one thread in SPSCFreeList::push and one in SPSCFreeList::pop, in any
-- interleaving of their accesses. The acquire and release orderings of the source are taken to make
-- the accesses visible in the order in which they are written down.
pub mod Valid
pub mod Order
use message_us_cld.Prelude.{
  ℕ, ◌≡◌, ◌==◌, leb, if◌then◌else◌, List, [], ◌∷◌, ◌++◌, bit_and, add64, sub64, get_or, set,
}
use message_us_cld.Pool.FreeList.{FreeList}

-- Where a push stands: it has seen room for its address, or has it in the slot.
pub data Pushing : Type 0 where
  idle : Pushing
  reserved filled : ℕ → Pushing

-- Where a pop stands: it has seen an address, or holds it.
pub data Popping : Type 0 where
  waiting ready : Popping
  holding : ℕ → Popping

-- `pushed` and `popped` record the addresses of the completed calls.
pub record System : Type 0 where
  pub list : FreeList
  pub pushing : Pushing
  pub popping : Popping
  pub pushed : List ℕ
  pub popped : List ℕ

-- A push that finds no room returns false, and a pop that finds nothing returns 0.
abbrev pub after_room : System → ℕ → System
after_room s ptr = record s {
  pushing = if leb s.list.cap (sub64 s.list.wp s.list.rp) then idle else reserved ptr;
}

abbrev pub after_fill : System → ℕ → System
after_fill s ptr = record s {
  list = record (s.list) { slots = set s.list.slots (bit_and s.list.wp s.list.mask) ptr };
  pushing = filled ptr;
}

abbrev pub after_publish : System → ℕ → System
after_publish s ptr = record s {
  list = record (s.list) { wp = add64 s.list.wp 1 };
  pushing = idle;
  pushed = s.pushed ++ (ptr ∷ []);
}

abbrev pub after_check : System → System
after_check s = record s { popping = if s.list.rp == s.list.wp then waiting else ready }

abbrev pub after_load : System → System
after_load s = record s {
  popping = holding (get_or s.list.slots (bit_and s.list.rp s.list.mask) 0);
}

abbrev pub after_release : System → ℕ → System
after_release s p = record s {
  list = record (s.list) { rp = add64 s.list.rp 1 };
  popping = waiting;
  popped = s.popped ++ (p ∷ []);
}

pub data Step (s t : System) : Type 0 where
  looks : (ptr : ℕ) → s.pushing ≡ idle → t ≡ after_room s ptr → Step s t
  fills : (ptr : ℕ) → s.pushing ≡ reserved ptr → t ≡ after_fill s ptr → Step s t
  publishes : (ptr : ℕ) → s.pushing ≡ filled ptr → t ≡ after_publish s ptr → Step s t
  checks : s.popping ≡ waiting → t ≡ after_check s → Step s t
  loads : s.popping ≡ ready → t ≡ after_load s → Step s t
  releases : (p : ℕ) → s.popping ≡ holding p → t ≡ after_release s p → Step s t

pub data Reach (s : System) : System → Type 0 where
  here : Reach s s
  next : {t u : System} → Reach s t → Step t u → Reach s u

-- Both threads outside a call.
abbrev pub at_rest : FreeList → System
at_rest f = record { list = f; pushing = idle; popping = waiting; pushed = []; popped = [] }
