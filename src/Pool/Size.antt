-- ===== src/Pool/Size.antt =====
-- memory_pool/memory_pool.hpp: align_up, next_pow2, the size class table and size_to_class.
pub mod Rounding
pub mod Classes
use message_us_cld.Prelude.{
  ℕ, ◌/◌, ◌^◌, List, [], ◌∷◌, Option, none, some, leb, if◌then◌else◌, bit_and, bit_or, add64, sub64,
  not64,
}

abbrev pub cache_line : ℕ
cache_line = 64

unfoldable pub align_up : ℕ → ℕ → ℕ
align_up n a = bit_and (sub64 (add64 n a) 1) (not64 (sub64 a 1))

-- `n |= n >> j`
smear : ℕ → ℕ → ℕ
smear j n = bit_or n (n / 2 ^ j)

smear_all : ℕ → ℕ
unfolding smear
smear_all n = smear 32 (smear 16 (smear 8 (smear 4 (smear 2 (smear 1 n)))))

-- The result for a number above 2^63 wraps to 0.
unfoldable pub next_pow2 : ℕ → ℕ
unfolding smear_all
next_pow2 n = if leb n 1 then 1 else add64 (smear_all (sub64 n 1)) 1

abbrev pub num_size_classes : ℕ
num_size_classes = 8

abbrev pub size_class_bytes : List ℕ
size_class_bytes = 64 ∷ 128 ∷ 256 ∷ 512 ∷ 1024 ∷ 2048 ∷ 4096 ∷ 8192 ∷ []

-- `none` is the -1 of the source.
unfoldable pub size_to_class : ℕ → Option ℕ
size_to_class n =
    if leb n 64
    then some 0
    else if leb n 128
    then some 1
    else if leb n 256
    then some 2
    else if leb n 512
    then some 3
    else if leb n 1024
    then some 4
    else if leb n 2048
    then some 5
    else if leb n 4096
    then some 6
    else if leb n 8192
    then some 7
    else none
