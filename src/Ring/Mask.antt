-- ===== src/Ring/Mask.antt =====
-- The masks of the sources are rings: `p & (cap - 1)` at a power of two `cap`, over the whole
-- position (SPSCFreeList) or over its low 32 bits (slot_ptr of spsc_bus).
use native.Mathlib.Nat.{mod-mod_of_dvd, one-le-pow, two-pow-succ, zero-add, suc-add}
use Prim.Native.Nat.{◌∣◌, ◌*◌}
use message_us_cld.Prelude.{
  ℕ, zero, suc, ◌+◌, ◌-◌, ◌%◌, ◌^◌, ◌≤◌, ◌≡◌, ap, ◌∙◌, arith, bit_and, bit_and_mask, word32,
}
use message_us_cld.Ring.{IsRing}

pow_add : (i j : ℕ) → 2 ^ (i + j) ≡ 2 ^ i * 2 ^ j
pow_add zero j = rw zero-add (omega arith)
pow_add (suc i) j =
    ap (λ t. 2 ^ t) (suc-add i j)
    ∙ omega (arith, two-pow-succ (i + j), pow_add i j, ap (λ t. t * 2 ^ j) (two-pow-succ i))

dvd_pow : (k m : ℕ) → k ≤ m → 2 ^ k ∣ 2 ^ m
dvd_pow k m h = ∣ (2 ^ (m - k), ap (λ t. 2 ^ t) (split k m h) ∙ pow_add k (m - k)) ∣₁
  where
    split : (k m : ℕ) → k ≤ m → m ≡ k + (m - k)
    split k m h = omega arith

pub mask-IsRing : (k : ℕ) → k ≤ 64 → IsRing (2 ^ k) (λ p. bit_and p (2 ^ k - 1))
mask-IsRing k small = record {
  positive = one-le-pow k 2 (omega arith);
  wraps = λ p. mod-mod_of_dvd (2 ^ k) p (dvd_pow k 64 small);
  index_lem = bit_and_mask k;
}

pub mask32-IsRing : (k : ℕ) → k ≤ 32 → IsRing (2 ^ k) (λ p. bit_and (p % word32) (2 ^ k - 1))
mask32-IsRing k small = record {
  positive = one-le-pow k 2 (omega arith);
  wraps = λ p. mod-mod_of_dvd (2 ^ k) p (dvd_pow k 64 (omega arith));
  index_lem = λ p. bit_and_mask k (p % word32) ∙ mod-mod_of_dvd (2 ^ k) p (dvd_pow k 32 small);
}
