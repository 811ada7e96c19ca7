-- ===== src/Pool/Memory/Conserve.antt =====
-- What a pool and its client hold between them.
use message_us_cld.Prelude.{
  ℕ, ◌+◌, ◌*◌, ◌^◌, ◌≤◌, ◌<◌, ◌≡◌, ◌≢◌, ◌⊎◌, inl, inr, refl, sym, ap, ◌∙◌, arith, true, List, ◌∷◌,
  length, count, word, add64, sub64,
}
use message_us_cld.Pool.FreeList
use message_us_cld.Pool.FreeList.{FreeList}
use message_us_cld.Pool.FreeList.Valid.{IsValid, contents, cap-le, pop-IsValid, cap-pop}
use message_us_cld.Pool.FreeList.Refine.{pop_cases}
use message_us_cld.Pool.Memory.{Memory, Stats, alloc, owns}
use message_us_cld.Pool.Memory.Blocks.{addresses, count-le-one, addresses_in_range}

abbrev pub blocks : Memory → List ℕ
blocks m = addresses m.backing m.block_size 0 m.num_blocks

-- Every block of the mapping is either in the free list or with the client, once; `held` lists
-- those that the client has.
pub record Inv (k : ℕ) (m : Memory) (held : List ℕ) : Type 0 where
  pub list_valid : IsValid k m.freelist
  pub list_cap : m.freelist.cap ≡ m.num_blocks
  pub mapped : 0 < m.backing
  pub sized : 0 < m.block_size
  pub whole : m.backing_size ≡ m.num_blocks * m.block_size
  pub in_memory : m.backing + m.backing_size < word
  pub conserved : (p : ℕ) → count p (contents m.freelist) + count p held ≡ count p (blocks m)
  pub complete : length (contents m.freelist) + length held ≡ m.num_blocks
  pub counted : sub64 m.stats.allocs m.stats.frees ≡ length held
  pub allocs_in_range : m.stats.allocs < word
  pub frees_in_range : m.stats.frees < word

-- What `alloc` answers: nothing, when the client has every block; or a block of the mapping that it
-- did not have.
abbrev pub Allocated : ℕ → Memory → List ℕ → ℕ × Memory → Type 0
Allocated k m held (p, m') =
    ((p ≡ 0) × (length held ≡ m.num_blocks) × Inv k m' held)
    ⊎ ((p ≢ 0) × (count p held ≡ 0) × (0 < count p (blocks m)) × Inv k m' (p ∷ held))

module _ {k : ℕ} {m : Memory} {held : List ℕ} (inv : Inv k m held) where
  pub in_blocks :
      (p : ℕ)
      → 0 < count p (blocks m)
      → (m.backing ≤ p) × (p + m.block_size ≤ m.backing + m.backing_size)
  in_blocks p h =
      omega (arith, inv.whole, addresses_in_range m.backing m.block_size p 0 m.num_blocks h)

  pub owns_block : (p : ℕ) → 0 < count p (blocks m) → owns m p ≡ true
  unfolding owns
  owns_block p h = ground (arith, in_blocks p h, inv.in_memory, inv.sized)

  alloc_some :
      (FreeList.pop m.freelist).0 ≢ 0
      → alloc m ≡ (
        (FreeList.pop m.freelist).0,
        record m {
          freelist = (FreeList.pop m.freelist).1;
          stats = record (m.stats) { allocs = add64 m.stats.allocs 1 };
        },
      )
  unfolding alloc
  alloc_some ne = ground arith

  alloc_none :
      (FreeList.pop m.freelist).0 ≡ 0
      → alloc m ≡ (
        0,
        record m {
          freelist = (FreeList.pop m.freelist).1;
          stats = record (m.stats) { alloc_failures = add64 m.stats.alloc_failures 1 };
        },
      )
  unfolding alloc
  alloc_none eq = ground arith

  -- The invariant after a call that moved blocks between the list and the client.
  pub moved-Inv :
      (g : FreeList) (s : Stats) (held' : List ℕ)
      → IsValid k g
      → g.cap ≡ m.freelist.cap
      → ((p : ℕ)
          → count p (contents g) + count p held' ≡ count p (contents m.freelist) + count p held)
      → length (contents g) + length held' ≡ length (contents m.freelist) + length held
      → sub64 s.allocs s.frees ≡ length held'
      → s.allocs < word
      → s.frees < word
      → Inv k (record m { freelist = g; stats = s }) held'
  moved-Inv g s held' v c moved total n a b = record {
    list_valid = v;
    list_cap = c ∙ inv.list_cap;
    mapped = inv.mapped;
    sized = inv.sized;
    whole = inv.whole;
    in_memory = inv.in_memory;
    conserved = λ p. moved p ∙ inv.conserved p;
    complete = total ∙ inv.complete;
    counted = n;
    allocs_in_range = a;
    frees_in_range = b;
  }

  pub held-le : length held ≤ 2 ^ 63
  held-le = omega (arith, inv.complete, inv.list_cap, cap-le inv.list_valid)

  pub alloc-Allocated : Allocated k m held (alloc m)
  alloc-Allocated = elim (pop_cases inv.list_valid) [
    | inl (none_left, null, still) ↦ rw (alloc_none null) (
        inl (
          refl,
          omega (arith, inv.complete, ap length none_left),
          moved-Inv (FreeList.pop m.freelist).1 _ held (pop-IsValid inv.list_valid)
              (cap-pop m.freelist) (λ p. omega (arith, ap (count p) (still ∙ sym none_left)))
              (omega (arith, ap length (still ∙ sym none_left))) inv.counted inv.allocs_in_range
              inv.frees_in_range,
        ))
    | inr first ↦ alloc_first first
  ]
    where
      alloc_first :
          contents m.freelist ≡ (FreeList.pop m.freelist).0 ∷ contents (FreeList.pop m.freelist).1
          → Allocated k m held (alloc m)
      alloc_first first = rw (alloc_some not_null) (
          inr (
            not_null,
            fresh,
            omega (arith, listed),
            moved-Inv (FreeList.pop m.freelist).1 _ ((FreeList.pop m.freelist).0 ∷ held)
                (pop-IsValid inv.list_valid) (cap-pop m.freelist)
                (λ p. omega (arith, ap (count p) first)) (omega (arith, ap length first))
                (omega (arith, inv.counted, held-le, inv.allocs_in_range, inv.frees_in_range))
                (omega arith) inv.frees_in_range,
          ))
        where
          p : ℕ
          p = (FreeList.pop m.freelist).0

          listed : 0 < count p (blocks m)
          listed = ground (arith, inv.conserved p, ap (count p) first)

          not_null : p ≢ 0
          not_null = λ e. omega (arith, in_blocks p listed, inv.mapped)

          fresh : count p held ≡ 0
          fresh = ground (
            arith,
            inv.conserved p,
            ap (count p) first,
            count-le-one m.backing m.block_size p 0 m.num_blocks inv.sized,
          )

-- Only which blocks the client has counts, not their order.
pub Inv-reorder :
    {k : ℕ} {m : Memory} (held : List ℕ) {held' : List ℕ}
    → Inv k m held
    → ((p : ℕ) → count p held' ≡ count p held)
    → length held' ≡ length held
    → Inv k m held'
Inv-reorder {m} held {held'} inv same total =
    moved-Inv inv m.freelist m.stats held' inv.list_valid refl (λ p. omega (arith, same p))
      (omega (arith, total)) (omega (arith, total, inv.counted)) inv.allocs_in_range
      inv.frees_in_range

-- A block that the client has is not null, and it has it once.
pub held_once :
    {k p : ℕ} {m : Memory} (held : List ℕ) → Inv k m (p ∷ held) → (p ≢ 0) × (count p held ≡ 0)
held_once {k} {p} {m} held inv = (
  λ e. omega (arith, in_blocks inv p listed, inv.mapped),
  ground (arith, inv.conserved p, count-le-one m.backing m.block_size p 0 m.num_blocks inv.sized),
)
  where
    listed : 0 < count p (blocks m)
    listed = ground (arith, inv.conserved p)
