-- ===== src/Bus/Layout/Bounds.antt =====
-- Slots lie inside the segment, on cache lines of their own, and do not overlap.
use native.Mathlib.Decide.{dec_lt}
use native.Mathlib.Nat.{pow-le-pow_right}
use message_us_cld.Prelude.{
  ℕ, ◌+◌, ◌-◌, ◌*◌, ◌/◌, ◌%◌, ◌^◌, ◌≤◌, ◌<◌, ◌≡◌, ◌⊎◌, inl, inr, ap, arith, bit_and, bit_and_mask,
  bit_and_shifted, word32, add64, sub64, mul64,
}
use message_us_cld.Ring.{IsRing, index-lt}
use message_us_cld.Ring.Mask.{mask32-IsRing}
use message_us_cld.Bus.Layout.{
  cache_line, slot_header_size, control_block_size, compute_slot_stride, compute_shm_size,
  slot_index, slot_offset,
}

-- The stride holds the header and the largest payload, is a whole number of cache lines, and wastes
-- less than one.
stride_lem :
    (max_msg : ℕ)
    → max_msg < word32
    → (slot_header_size + max_msg ≤ compute_slot_stride max_msg)
      × (compute_slot_stride max_msg < slot_header_size + max_msg + cache_line)
      × (compute_slot_stride max_msg % cache_line ≡ 0)
unfolding compute_slot_stride
stride_lem max_msg small = omega (
  arith,
  split,
  bit_and_shifted 6 (x / 2 ^ 6) (x % 2 ^ 6) (2 ^ 58 - 1) (omega arith),
  bit_and_mask 58 (x / 2 ^ 6),
)
  where
    x : ℕ
    x = sub64 (add64 (add64 slot_header_size max_msg) cache_line) 1

    split :
        bit_and x ((2 ^ 58 - 1) * 2 ^ 6)
        ≡ bit_and (x / 2 ^ 6 * 2 ^ 6 + x % 2 ^ 6) ((2 ^ 58 - 1) * 2 ^ 6)
    split = ap (λ t. bit_and t ((2 ^ 58 - 1) * 2 ^ 6)) (omega arith)

-- The bound up to which create stores the stride, a uint32_t in the control block, whole.
pub stored_stride :
    (max_msg : ℕ)
    → max_msg + 72 ≤ word32
    → compute_slot_stride max_msg % word32 ≡ compute_slot_stride max_msg
stored_stride max_msg fits =
    let bounds = stride_lem max_msg (omega (arith, fits)) in omega (arith, bounds.1, fits)

pub slot-IsRing : (k : ℕ) → k ≤ 31 → IsRing (2 ^ k) (slot_index (2 ^ k))
unfolding slot_index
slot-IsRing k small = mask32-IsRing k (omega arith)

-- The byte range of slot `i`, without wrap-around.
module _ (cap stride i : ℕ) (few : cap ≤ 2 ^ 31) (narrow : stride < 2 ^ 32 + 72)
    (lt : i < cap) where
  end_le : i * stride + stride ≤ cap * stride
  end_le = grind arith

  total_le : cap * stride ≤ 2 ^ 31 * (2 ^ 32 + 72)
  total_le = grind arith

  offset_eq : add64 control_block_size (mul64 i stride) ≡ control_block_size + i * stride
  offset_eq = omega (arith, end_le, total_le)

  size_eq : add64 control_block_size (mul64 cap stride) ≡ control_block_size + cap * stride
  size_eq = omega (arith, end_le, total_le)

  offset_aligned : stride % cache_line ≡ 0 → (control_block_size + i * stride) % cache_line ≡ 0
  offset_aligned whole = omega (arith, ap (λ s. i * s) lines)
    where
      lines : stride ≡ 64 * (stride / 64)
      lines = omega arith

slot_order : (stride i j : ℕ) → i < j → i * stride + stride ≤ j * stride
slot_order stride i j lt = grind arith

-- Every position of a bus of `2 ^ k` slots has its slot, header and largest payload, inside the
-- segment behind the control block and at the start of a cache line; the slots of two positions are
-- the same or do not overlap. `k` is at most 31, and the largest payload at most 2^32 - 72 bytes: then
-- the stride that create stores is the whole one.
pub slots_separate :
    (k max_msg p q : ℕ)
    → k ≤ 31
    → max_msg + 72 ≤ word32
    → let cap = 2 ^ k in
      let stride = compute_slot_stride max_msg % word32 in
      let offset = slot_offset cap stride p in
      (control_block_size ≤ offset)
      × (offset + slot_header_size + max_msg ≤ compute_shm_size cap max_msg)
      × (offset % cache_line ≡ 0)
      × ((slot_index cap p ≡ slot_index cap q)
          ⊎ ((offset + stride ≤ slot_offset cap stride q)
              ⊎ (slot_offset cap stride q + stride ≤ offset)))
unfolding slot_offset compute_shm_size
slots_separate k max_msg p q small fits = rw (stored_stride max_msg fits) (
  omega (arith, here),
  omega (
    arith,
    here,
    size_eq cap stride i few narrow i_lt,
    end_le cap stride i few narrow i_lt,
    bounds.0,
  ),
  rw here (offset_aligned cap stride i few narrow i_lt bounds.2),
  separate,
)
  where
    cap : ℕ
    cap = 2 ^ k

    stride : ℕ
    stride = compute_slot_stride max_msg

    i : ℕ
    i = slot_index cap p

    j : ℕ
    j = slot_index cap q

    bounds :
        (slot_header_size + max_msg ≤ stride)
        × (stride < slot_header_size + max_msg + cache_line)
        × (stride % cache_line ≡ 0)
    bounds = stride_lem max_msg (omega (arith, fits))

    few : cap ≤ 2 ^ 31
    few = pow-le-pow_right {n = 2} (omega arith) small

    narrow : stride < 2 ^ 32 + 72
    narrow = omega (arith, bounds.1)

    i_lt : i < cap
    i_lt = index-lt (slot-IsRing k small) p

    j_lt : j < cap
    j_lt = index-lt (slot-IsRing k small) q

    here : slot_offset cap stride p ≡ control_block_size + i * stride
    here = offset_eq cap stride i few narrow i_lt

    there : slot_offset cap stride q ≡ control_block_size + j * stride
    there = offset_eq cap stride j few narrow j_lt

    separate :
        (i ≡ j)
        ⊎ ((slot_offset cap stride p + stride ≤ slot_offset cap stride q)
            ⊎ (slot_offset cap stride q + stride ≤ slot_offset cap stride p))
    separate = elim (dec_lt i j) [
      | yes before ↦ inr (inl (omega (arith, here, there, slot_order stride i j before)))
      | no other ↦ elim (dec_lt j i) [
        | yes after ↦ inr (inr (omega (arith, here, there, slot_order stride j i after)))
        | no same ↦ inl (omega arith)
      ]
    ]
