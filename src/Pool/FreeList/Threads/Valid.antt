-- ===== src/Pool/FreeList/Threads/Valid.antt =====
-- What holds between any two accesses of a pushing and a popping thread on a free list.
use message_us_cld.Prelude.{ℕ, ◌<◌, ◌≡◌, ◌≢◌, List, ◌++◌, bit_and, sub64, get_or}
use message_us_cld.Pool.FreeList.{FreeList}
use message_us_cld.Pool.FreeList.Valid
use message_us_cld.Pool.FreeList.Valid.{contents}
use message_us_cld.Pool.FreeList.Threads.{
  System, Pushing, idle, reserved, filled, Popping, waiting, ready, holding,
}

-- From its check on, the pushing thread has room, since only it adds addresses.
abbrev pub PushingOk : FreeList → Pushing → Type 0
PushingOk f idle = Unit
PushingOk f (reserved ptr) = sub64 f.wp f.rp < f.cap
PushingOk f (filled ptr) =
    (sub64 f.wp f.rp < f.cap) × (get_or f.slots (bit_and f.wp f.mask) 0 ≡ ptr)

-- From its check on, the popping thread has an address, since only it takes addresses away.
abbrev pub PoppingOk : FreeList → Popping → Type 0
PoppingOk f waiting = Unit
PoppingOk f ready = f.rp ≢ f.wp
PoppingOk f (holding p) = (f.rp ≢ f.wp) × (p ≡ get_or f.slots (bit_and f.rp f.mask) 0)

-- A list that held the addresses of `start` before the calls.
pub record IsValid (k : ℕ) (start : List ℕ) (s : System) : Type 0 where
  pub list_valid : Valid.IsValid k s.list
  pub push_ok : PushingOk s.list s.pushing
  pub pop_ok : PoppingOk s.list s.popping
  pub flow : start ++ s.pushed ≡ s.popped ++ contents s.list
