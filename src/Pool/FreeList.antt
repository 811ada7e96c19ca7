-- ===== src/Pool/FreeList.antt =====
-- memory_pool/memory_pool.hpp: SPSCFreeList, the ring of free block addresses. The two positions
-- grow modulo 2^64. An address is a number, and nullptr is 0.
pub mod Valid
pub mod Refine
pub mod Threads
use message_us_cld.Prelude.{
  ℕ, Bool, true, false, List, Option, none, some, ◌==◌, leb, if◌then◌else◌, bit_and, add64, sub64,
  get_or, set, replicate,
}

pub record FreeList : Type 0 where
  pub wp : ℕ
  pub rp : ℕ
  pub cap : ℕ
  pub mask : ℕ
  pub slots : List ℕ

-- `none`: the assertion on the capacity fails.
pub make : ℕ → Option FreeList
make capacity =
    if bit_and capacity (sub64 capacity 1) == 0
    then some (record {
      wp = 0;
      rp = 0;
      cap = capacity;
      mask = sub64 capacity 1;
      slots = replicate capacity 0;
    })
    else none

pub push : FreeList → ℕ → Bool × FreeList
push f ptr =
    if leb f.cap (sub64 f.wp f.rp)
    then (false, f)
    else (true, record f { slots = set f.slots (bit_and f.wp f.mask) ptr; wp = add64 f.wp 1 })

-- 0 is the nullptr of an empty list.
pub pop : FreeList → ℕ × FreeList
pop f =
    if f.rp == f.wp
    then (0, f)
    else (get_or f.slots (bit_and f.rp f.mask) 0, record f { rp = add64 f.rp 1 })

pub size_approx : FreeList → ℕ
size_approx f = sub64 f.wp f.rp
