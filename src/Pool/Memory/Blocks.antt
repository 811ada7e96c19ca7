-- ===== src/Pool/Memory/Blocks.antt =====
-- The addresses of the blocks that a mapping is cut into.
use message_us_cld.Prelude.{
  ℕ, zero, suc, ◌+◌, ◌*◌, ◌≤◌, ◌<◌, ◌≡◌, refl, ap, List, [], ◌∷◌, arith, length, count,
}

module _ (base size : ℕ) where
  -- `n` blocks, from block `i` on.
  abbrev pub addresses : ℕ → ℕ → List ℕ
  addresses i zero = []
  addresses i (suc n) = (base + i * size) ∷ addresses (i + 1) n

  pub length-addresses : (i n : ℕ) → length (addresses i n) ≡ n
  length-addresses i zero = refl
  length-addresses i (suc n) = ap suc (length-addresses (i + 1) n)

  count_below : (p i n : ℕ) → p < base + i * size → count p (addresses i n) ≡ 0
  count_below p i zero h = refl
  count_below p i (suc n) h = ground (arith, count_below p (i + 1) n)

  -- No address is listed twice.
  pub count-le-one : (p i n : ℕ) → 0 < size → count p (addresses i n) ≤ 1
  count-le-one p i zero pos = omega arith
  count-le-one p i (suc n) pos =
      ground (arith, count-le-one p (i + 1) n pos, count_below p (i + 1) n)

  -- A listed address leaves room for a whole block.
  pub addresses_in_range :
      (p i n : ℕ)
      → 0 < count p (addresses i n)
      → (base + i * size ≤ p) × (p + size ≤ base + (i + n) * size)
  addresses_in_range p i zero h = absurd (omega arith)
  addresses_in_range p i (suc n) h = ground (arith, addresses_in_range p (i + 1) n)
