-- ===== src/Demo/Allocator/Slabs.antt =====
-- The rounds of bench_slab leave every block with the pools (memory_pool/bench_pool.cpp).
use message_us_cld.Prelude.{
  ℕ, zero, suc, ◌≤◌, ◌≡◌, inl, inr, refl, subst, arith, List, Option-cases, done,
}
use message_us_cld.Pool.Size.{size_class_bytes, size_to_class}
use message_us_cld.Pool.Size.Classes.{size_to_class_smallest, size_to_class-none}
use message_us_cld.Pool.Memory.{Memory}
use message_us_cld.Pool.Slab
use message_us_cld.Pool.Slab.Route.{
  SlabInv, Routed, alloc_in_class, alloc_at-Routed, slab_free-SlabInv,
}
use message_us_cld.Demo.Allocator.{slab_round, slab_rounds}

module _ {ks : List ℕ} (alloc_sz : ℕ) (fits : alloc_sz ≤ 8192) where
  slab_round-SlabInv :
      (helds : List (List ℕ)) (slab : List Memory)
      → SlabInv size_class_bytes ks slab helds
      → (slab' : List Memory) × (slab_round alloc_sz slab ≡ done slab')
        × SlabInv size_class_bytes ks slab' helds
  unfolding slab_round
  slab_round-SlabInv helds slab inv = elim (Option-cases (size_to_class alloc_sz)) [
    | inl unserved ↦ absurd (omega (arith, (size_to_class-none alloc_sz).0 unserved))
    | inr (i, served) ↦
        let routed : Routed i size_class_bytes ks slab helds (Slab.alloc slab alloc_sz) =
          subst (Routed i size_class_bytes ks slab helds) (alloc_in_class slab alloc_sz i served)
            (alloc_at-Routed i inv (size_to_class_smallest alloc_sz i served).0) in
        elim routed [
          | inl (null, all, inv') ↦ ((Slab.alloc slab alloc_sz).1, ground (arith, null), inv')
          | inr (some_block, new, inv') ↦
              let (slab', freed, inv'') =
                slab_free-SlabInv helds (Slab.alloc slab alloc_sz).0 alloc_sz i served inv' in
              (slab', ground (arith, some_block, freed), inv'')
        ]
  ]

  -- However many rounds, of a size that a class holds: no assertion fails, and the clients of the pools
  -- have after them what they had before.
  pub slab_rounds-SlabInv :
      (n : ℕ) (helds : List (List ℕ)) (slab : List Memory)
      → SlabInv size_class_bytes ks slab helds
      → (slab' : List Memory) × (slab_rounds alloc_sz n slab ≡ done slab')
        × SlabInv size_class_bytes ks slab' helds
  unfolding slab_rounds
  slab_rounds-SlabInv zero helds slab inv = (slab, refl, inv)
  slab_rounds-SlabInv (suc n) helds slab inv =
      let (slab1, once, inv1) = slab_round-SlabInv helds slab inv in
      let (slab', rest, inv') = slab_rounds-SlabInv n helds slab1 inv1 in
      (slab', rw once rest, inv')
