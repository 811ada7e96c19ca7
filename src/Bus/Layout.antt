-- ===== src/Bus/Layout.antt =====
-- spsc_bus/spsc_bus.hpp: the byte layout of the shared segment. Offsets are from the start of the
-- mapping.
pub mod Bounds
use message_us_cld.Prelude.{ℕ, ◌-◌, ◌*◌, ◌%◌, bit_and, add64, sub64, mul64, not64, word32}

abbrev pub cache_line : ℕ
cache_line = 64

-- sizeof(SlotHeader) and sizeof(ControlBlock), the latter by the static_assert of the source.
abbrev pub slot_header_size : ℕ
slot_header_size = 8

abbrev pub control_block_size : ℕ
control_block_size = 4 * cache_line

unfoldable pub compute_slot_stride : ℕ → ℕ
compute_slot_stride max_msg_size =
    let raw = add64 slot_header_size max_msg_size in
    bit_and (sub64 (add64 raw cache_line) 1) (not64 (sub64 cache_line 1))

unfoldable pub compute_shm_size : ℕ → ℕ → ℕ
compute_shm_size capacity max_msg_size =
    add64 control_block_size (mul64 capacity (compute_slot_stride max_msg_size))

-- `static_cast<uint32_t>(pos) & (capacity - 1u)`; the callers have a capacity of at least 1.
unfoldable pub slot_index : ℕ → ℕ → ℕ
slot_index capacity pos = bit_and (pos % word32) (capacity - 1)

-- slot_ptr, as an offset. `stride` is the uint32_t that the control block has.
unfoldable pub slot_offset : ℕ → ℕ → ℕ → ℕ
slot_offset capacity stride pos = add64 control_block_size (mul64 (slot_index capacity pos) stride)
