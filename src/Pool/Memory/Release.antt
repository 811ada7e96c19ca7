-- ===== src/Pool/Memory/Release.antt =====
-- Returning blocks to a pool: the client's own blocks are taken back, and a surplus one is caught.
use message_us_cld.Prelude.{
  ℕ, ◌<◌, ◌≡◌, ◌≢◌, ap, arith, true, false, List, [], ◌∷◌, ◌++◌, length, count, count-append,
  length-append, add64, done, aborted,
}
use message_us_cld.Pool.FreeList
use message_us_cld.Pool.FreeList.{FreeList}
use message_us_cld.Pool.FreeList.Valid.{contents, push-IsValid, cap-push}
use message_us_cld.Pool.FreeList.Refine.{push-room, push-full}
use message_us_cld.Pool.Memory.{Memory, alloc, free, owns}
use message_us_cld.Pool.Memory.Conserve.{Inv, blocks, in_blocks, owns_block, moved-Inv, held-le}

free_stores :
    (m : Memory) (p : ℕ)
    → p ≢ 0
    → owns m p ≡ true
    → (FreeList.push m.freelist p).0 ≡ true
    → free m p
      ≡ done (record m {
        freelist = (FreeList.push m.freelist p).1;
        stats = record (m.stats) { frees = add64 m.stats.frees 1 };
      })
unfolding free
free_stores m p a b c = ground arith

free_refuses : (m : Memory) (p : ℕ) → (FreeList.push m.freelist p).0 ≡ false → free m p ≡ aborted
unfolding free
free_refuses m p c = ground arith

-- No assertion fails on a block that the client has: it goes back to the pool, and the client keeps
-- its others.
pub free-Inv :
    {k p : ℕ} {m : Memory} {held : List ℕ}
    → Inv k m (p ∷ held)
    → (m' : Memory) × (free m p ≡ done m') × Inv k m' held
free-Inv {k} {p} {m} {held} inv = (
  _,
  free_stores m p not_null (owns_block inv p listed) pushed.0,
  moved-Inv inv (FreeList.push m.freelist p).1 _ held (push-IsValid p inv.list_valid)
      (cap-push m.freelist p)
      (λ q. omega (arith, ap (count q) pushed.1, count-append q (contents m.freelist) (p ∷ [])))
      (omega (arith, ap length pushed.1, length-append (contents m.freelist) (p ∷ [])))
      (omega (arith, inv.counted, held-le inv, inv.allocs_in_range, inv.frees_in_range))
      inv.allocs_in_range (omega arith),
)
  where
    listed : 0 < count p (blocks m)
    listed = ground (arith, inv.conserved p)

    not_null : p ≢ 0
    not_null = λ e. omega (arith, in_blocks inv p listed, inv.mapped)

    pushed :
        ((FreeList.push m.freelist p).0 ≡ true)
        × (contents (FreeList.push m.freelist p).1 ≡ contents m.freelist ++ (p ∷ []))
    pushed = push-room p inv.list_valid (omega (arith, inv.complete, inv.list_cap))

-- With every block back in the pool a further `free`, which can only be of a block returned twice or
-- of a foreign address, fails an assertion.
pub free-aborted : {k : ℕ} {m : Memory} → Inv k m [] → (p : ℕ) → free m p ≡ aborted
free-aborted {m} inv p =
    free_refuses m p (ap (λ r. r.0) (push-full p (omega (arith, inv.complete, inv.list_cap))))

-- Neither call changes the blocks' size.
pub block_size-free :
    (m : Memory) (p : ℕ) {m' : Memory} → free m p ≡ done m' → m'.block_size ≡ m.block_size
unfolding free
block_size-free m p e = ground arith

pub block_size-alloc : (m : Memory) → (alloc m).1.block_size ≡ m.block_size
unfolding alloc
block_size-alloc m = ground arith
