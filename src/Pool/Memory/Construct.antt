-- ===== src/Pool/Memory/Construct.antt =====
-- What the constructor of MemoryPool sets up.
use message_us_cld.Prelude.{
  ℕ, zero, suc, ◌+◌, ◌*◌, ◌^◌, ◌≤◌, ◌<◌, ◌≡◌, refl, sym, ap, ◌∙◌, arith, [], ◌∷◌, ◌++◌, some, max,
  length, count as count_in, length-append, append-nil, append_assoc, word, add64, mul64, done,
}
use message_us_cld.Pool.Size.{align_up, next_pow2, cache_line}
use message_us_cld.Pool.Size.Rounding.{align_up_least, next_pow2_least}
use message_us_cld.Pool.FreeList
use message_us_cld.Pool.FreeList.{FreeList}
use message_us_cld.Pool.FreeList.Valid.{IsValid, contents, push-IsValid, cap-push}
use message_us_cld.Pool.FreeList.Refine.{push-room, make-IsValid}
use message_us_cld.Pool.Memory.{Memory, Options, Mmap, map_backing, populate, construct}
use message_us_cld.Pool.Memory.Blocks.{addresses, length-addresses}
use message_us_cld.Pool.Memory.Conserve.{Inv}

-- The list after `n` more rounds of the loop, from block `i` on.
abbrev Populated : ℕ → ℕ → ℕ → ℕ → ℕ → FreeList → Type 0
Populated k n i base size f =
    (g : FreeList) × (populate n i base size f ≡ done g)
    × IsValid k g
    × (g.cap ≡ f.cap)
    × (contents g ≡ contents f ++ addresses base size i n)

block_address :
    (n i base size : ℕ)
    → base + (i + suc n) * size < word
    → add64 base (mul64 i size) ≡ base + i * size
block_address n i base size fits = omega arith

populate_round :
    {k : ℕ} (n i base size : ℕ) {f : FreeList}
    → base + (i + suc n) * size < word
    → IsValid k f
    → length (contents f) < f.cap
    → Populated k n (i + 1) base size (FreeList.push f (add64 base (mul64 i size))).1
    → Populated k (suc n) i base size f
unfolding populate
populate_round n i base size {f} fits v room (g, runs, valid, same_cap, held) = (
  g,
  rw ((push-room x v room).0, populate) runs,
  valid,
  same_cap ∙ cap-push f x,
  held
      ∙ ap (λ xs. xs ++ addresses base size (i + 1) n) (push-room x v room).1
      ∙ append_assoc (contents f) (x ∷ []) (addresses base size (i + 1) n)
      ∙ ap (λ y. contents f ++ (y ∷ addresses base size (i + 1) n))
          (block_address n i base size fits),
)
  where
    x : ℕ
    x = add64 base (mul64 i size)

length-pushed :
    {k : ℕ} {f : FreeList} (x : ℕ)
    → IsValid k f
    → length (contents f) < f.cap
    → length (contents (FreeList.push f x).1) ≡ length (contents f) + 1
length-pushed {f} x v room = ap length (push-room x v room).1 ∙ length-append (contents f) (x ∷ [])

-- The loop of the constructor never meets a full list, and leaves the block addresses in order.
pub populate-Populated :
    {k : ℕ} (n i base size : ℕ) {f : FreeList}
    → IsValid k f
    → length (contents f) + n ≤ f.cap
    → base + (i + n) * size < word
    → Populated k n i base size f
unfolding populate
populate-Populated zero i base size {f} v room fits =
    (f, refl, v, refl, sym (append-nil (contents f)))
populate-Populated (suc n) i base size {f} v room fits =
    let x : ℕ = add64 base (mul64 i size) in
    populate_round n i base size fits v (omega arith) (
      populate-Populated n (i + 1) base size (push-IsValid x v)
        (omega (arith, length-pushed x v (omega arith), cap-push f x)) (omega arith))

-- The pool that the constructor returns.
abbrev constructed : ℕ → ℕ → Options → FreeList → ℕ → Memory
constructed size count opts full base = record {
  block_size = size;
  num_blocks = count;
  opts = opts;
  freelist = full;
  backing = base;
  backing_size = mul64 size count;
  stats = record { allocs = 0; frees = 0; alloc_failures = 0 };
}

module _ (mmap : Mmap) (size count base : ℕ) (opts : Options) where
  abbrev rounded_size : ℕ
  rounded_size = align_up (max size cache_line) cache_line

  abbrev rounded_count : ℕ
  rounded_count = next_pow2 (max count 2)

  construct_runs :
      {f g : FreeList}
      → FreeList.make rounded_count ≡ some f
      → mmap opts.huge_pages (mul64 rounded_size rounded_count) ≡ some base
      → populate rounded_count 0 base rounded_size f ≡ done g
      → construct mmap size count opts ≡ done (constructed rounded_size rounded_count opts g base)
  unfolding construct map_backing
  construct_runs made granted filled = rw (made, granted, map_backing, filled)

constructed-Inv :
    {k : ℕ} (size count base : ℕ) (opts : Options) (g : FreeList)
    → IsValid k g
    → g.cap ≡ count
    → contents g ≡ addresses base size 0 count
    → 0 < base
    → 0 < size
    → base + size * count < word
    → Inv k (constructed size count opts g base) []
constructed-Inv size count base opts g v same_cap held pos sized fits = record {
  list_valid = v;
  list_cap = same_cap;
  mapped = pos;
  sized = sized;
  whole = omega arith;
  in_memory = omega arith;
  conserved = λ p. omega (arith, ap (λ xs. count_in p xs) held);
  complete = omega (arith, ap length held, length-addresses base size 0 count);
  counted = refl;
  allocs_in_range = omega arith;
  frees_in_range = omega arith;
}

construct_assembles :
    (mmap : Mmap) (size count base : ℕ) (opts : Options) (k : ℕ) {f : FreeList}
    → rounded_count mmap size count base opts ≡ 2 ^ k
    → FreeList.make (2 ^ k) ≡ some f
    → IsValid k f
    → contents f ≡ []
    → mmap opts.huge_pages
        (mul64 (rounded_size mmap size count base opts) (rounded_count mmap size count base opts))
      ≡ some base
    → 0 < base
    → 0 < rounded_size mmap size count base opts
    → base + rounded_size mmap size count base opts * rounded_count mmap size count base opts < word
    → (m : Memory) × (construct mmap size count opts ≡ done m)
      × Inv k m []
      × (m.block_size ≡ rounded_size mmap size count base opts)
      × (m.num_blocks ≡ rounded_count mmap size count base opts)
construct_assembles mmap size count base opts k {f} power made v none_yet granted pos sized fits =
    let (g, filled, valid, same_cap, held) = populate-Populated n 0 base s v room (omega arith) in
    (
      constructed s n opts g base,
      construct_runs mmap size count base opts (rw power made) granted filled,
      constructed-Inv s n base opts g valid (same_cap ∙ v.capacity ∙ sym power)
          (held ∙ ap (λ xs. xs ++ addresses base s 0 n) none_yet) pos sized fits,
      refl,
      refl,
    )
  where
    n : ℕ
    n = rounded_count mmap size count base opts

    s : ℕ
    s = rounded_size mmap size count base opts

    room : length (contents f) + n ≤ f.cap
    room = omega (arith, ap length none_yet, power, v.capacity)

-- The constructor, where the kernel grants the mapping: it completes, with the block size rounded up
-- to the cache line, the number of blocks rounded up to a power of two, and every block in the free
-- list. The kernel's mapping is assumed not to start at 0 nor to reach the end of the address space.
pub construct-Inv :
    (mmap : Mmap) (size count base : ℕ) (opts : Options)
    → size ≤ 2 ^ 32
    → count ≤ 2 ^ 30
    → mmap opts.huge_pages
        (mul64 (align_up (max size cache_line) cache_line) (next_pow2 (max count 2)))
      ≡ some base
    → 0 < base
    → base + align_up (max size cache_line) cache_line * next_pow2 (max count 2) < word
    → (k : ℕ) × (m : Memory) × (construct mmap size count opts ≡ done m)
      × Inv k m []
      × (size ≤ m.block_size)
      × (count ≤ m.num_blocks)
      × (m.block_size ≡ align_up (max size cache_line) cache_line)
      × (m.num_blocks ≡ next_pow2 (max count 2))
construct-Inv mmap size count base opts s c granted pos fits =
    let (k, k_small, power, enough, near) =
      next_pow2_least (max count 2) (omega arith) (omega arith) in
    let (f, made, v, none_yet) = make-IsValid k k_small in
    let (above, within, aligned) = align_up_least (max size cache_line) (omega arith) in
    let (m, built, inv, size_eq, count_eq) =
      construct_assembles mmap size count base opts k power made v none_yet granted pos
        (omega arith) fits in
    (k, m, built, inv, omega (arith, size_eq), omega (arith, count_eq), size_eq, count_eq)
