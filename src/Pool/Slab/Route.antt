-- ===== src/Pool/Slab/Route.antt =====
-- A slab pool serves every size from the smallest class that holds it, and takes a block back into
-- the class it came from.
use message_us_cld.Prelude.{
  ℕ, zero, suc, ◌-◌, ◌≤◌, ◌<◌, ◌≡◌, ◌≢◌, ◌⊎◌, inl, inr, refl, ap, arith, List, [], ◌∷◌, length,
  count, some, get_or, done,
}
use message_us_cld.Prelude.{Option-cases}
use message_us_cld.Pool.Size.{size_class_bytes, size_to_class}
use message_us_cld.Pool.Size.Classes.{size_to_class_smallest, size_to_class-none}
use message_us_cld.Pool.Memory.{Memory}
use message_us_cld.Pool.Memory.Conserve.{Inv, alloc-Allocated}
use message_us_cld.Pool.Memory.Release.{free-Inv, block_size-alloc, block_size-free}
use message_us_cld.Pool.Slab.{alloc, free, alloc_at, free_at}

-- Every pool keeps its invariant with the blocks that the client has of its class, and its blocks
-- hold the class's bytes.
pub data SlabInv : List ℕ → List ℕ → List Memory → List (List ℕ) → Type 0 where
  no_class : SlabInv [] [] [] []
  one_class :
      {b k : ℕ} {m : Memory} {held bs ks : List ℕ} {ms : List Memory} {rest : List (List ℕ)}
      → b ≤ m.block_size
      → Inv k m held
      → SlabInv bs ks ms rest
      → SlabInv (b ∷ bs) (k ∷ ks) (m ∷ ms) (held ∷ rest)

-- The client's blocks with `p` added to, or taken from the front of, those of class `i`.
abbrev pub gain : ℕ → ℕ → List (List ℕ) → List (List ℕ)
gain i p [] = []
gain zero p (held ∷ rest) = (p ∷ held) ∷ rest
gain (suc i) p (held ∷ rest) = held ∷ gain i p rest

-- The number of blocks of class `i`.
abbrev pub blocks_at : ℕ → List Memory → ℕ
blocks_at i [] = 0
blocks_at zero (m ∷ ms) = m.num_blocks
blocks_at (suc i) (m ∷ ms) = blocks_at i ms

-- What an allocation of class `i` answers: nothing when the client has every block of the class, or a
-- block that the client did not have, of at least the class's bytes.
abbrev pub Routed : ℕ → List ℕ → List ℕ → List Memory → List (List ℕ) → ℕ × List Memory → Type 0
Routed i bs ks ms helds (p, ms') =
    ((p ≡ 0) × (length (get_or helds i []) ≡ blocks_at i ms) × SlabInv bs ks ms' helds)
    ⊎ ((p ≢ 0) × (count p (get_or helds i []) ≡ 0) × SlabInv bs ks ms' (gain i p helds))

pub alloc_at-Routed :
    {bs ks : List ℕ} {ms : List Memory} {helds : List (List ℕ)} (i : ℕ)
    → SlabInv bs ks ms helds
    → i < length bs
    → Routed i bs ks ms helds (alloc_at i ms)
unfolding alloc_at
alloc_at-Routed i no_class lt = absurd (omega arith)
alloc_at-Routed zero (one_class {m = m} {held = held} holds inv more) lt =
    elim (alloc-Allocated inv) [
      | inl (null, all, inv') ↦
          inl (null, all, one_class (omega (arith, block_size-alloc m)) inv' more)
      | inr (ne, fresh, listed, inv') ↦
          inr (ne, fresh, one_class (omega (arith, block_size-alloc m)) inv' more)
    ]
alloc_at-Routed (suc i) (one_class holds inv more) lt =
    elim (alloc_at-Routed i more (omega arith)) [
      | inl (null, all, inv') ↦ inl (null, all, one_class holds inv inv')
      | inr (ne, fresh, inv') ↦ inr (ne, fresh, one_class holds inv inv')
    ]

-- A request of a class goes to the pool of the class.
pub alloc_in_class :
    (slab : List Memory) (size i : ℕ)
    → size_to_class size ≡ some i
    → alloc_at i slab ≡ alloc slab size
unfolding alloc
alloc_in_class slab size i served = ground (arith, served)

-- A request of at most 8192 bytes is answered from the smallest class that holds it: with nullptr only
-- when the client has every block of that class, and otherwise with a block that the client did not
-- have and whose pool has blocks of at least that class's bytes; the invariant of every pool holds
-- again, and a class's pool is not touched by the others.
pub slab_alloc-Routed :
    {ks : List ℕ} {ms : List Memory} {helds : List (List ℕ)} (size : ℕ)
    → SlabInv size_class_bytes ks ms helds
    → size ≤ 8192
    → (i : ℕ) × (size ≤ get_or size_class_bytes i 0)
      × (0 < i → get_or size_class_bytes (i - 1) 0 < size)
      × Routed i size_class_bytes ks ms helds (alloc ms size)
unfolding alloc
slab_alloc-Routed {ks} {ms} {helds} size inv le = elim (Option-cases (size_to_class size)) [
  | inl unserved ↦ absurd (omega (arith, (size_to_class-none size).0 unserved))
  | inr (i, served) ↦
      let (lt, holds, least) = size_to_class_smallest size i served in
      (i, holds, least, rw (served, alloc) (alloc_at-Routed i inv lt))
]

free_at-SlabInv :
    {bs ks : List ℕ} {ms : List Memory} (helds : List (List ℕ)) (i p : ℕ)
    → SlabInv bs ks ms (gain i p helds)
    → i < length helds
    → (ms' : List Memory) × (free_at i p ms ≡ done ms') × SlabInv bs ks ms' helds
unfolding free_at
free_at-SlabInv [] i p inv lt = absurd (omega arith)
free_at-SlabInv (held ∷ rest) zero p (one_class {m = m} {ms = ms} holds inv more) lt =
    let (m', freed, inv') = free-Inv inv in
    (m' ∷ ms, rw freed, one_class (omega (arith, block_size-free m p freed)) inv' more)
free_at-SlabInv (held ∷ rest) (suc i) p (one_class {m = m} holds inv more) lt =
    let (ms', freed, inv') = free_at-SlabInv rest i p more (omega arith) in
    (m ∷ ms', rw freed, one_class holds inv inv')

length-helds :
    {bs ks : List ℕ} {ms : List Memory} {helds : List (List ℕ)}
    → SlabInv bs ks ms helds
    → length helds ≡ length bs
length-helds no_class = refl
length-helds (one_class holds inv more) = ap suc (length-helds more)

length-gain : (i p : ℕ) (helds : List (List ℕ)) → length (gain i p helds) ≡ length helds
length-gain i p [] = refl
length-gain zero p (held ∷ rest) = refl
length-gain (suc i) p (held ∷ rest) = ap suc (length-gain i p rest)

-- A block that the client has of the class of `size` is taken back into that class, with no
-- assertion failing.
pub slab_free-SlabInv :
    {ks : List ℕ} {ms : List Memory} (helds : List (List ℕ)) (p size i : ℕ)
    → size_to_class size ≡ some i
    → SlabInv size_class_bytes ks ms (gain i p helds)
    → (ms' : List Memory) × (free ms p size ≡ done ms') × SlabInv size_class_bytes ks ms' helds
unfolding free
slab_free-SlabInv helds p size i served inv =
    let (ms', freed, inv') = free_at-SlabInv helds i p inv in_range in
    (ms', rw (served, free) freed, inv')
  where
    in_range : i < length helds
    in_range =
        omega
          (arith, (size_to_class_smallest size i served).0, length-helds inv, length-gain i p helds)
