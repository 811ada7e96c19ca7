-- ===== src/Prelude/Words.antt =====
-- uint64_t and uint32_t values as numbers below a power of two, wrapping as the machine does.
use Prim.Native.Nat.{ℕ, ◌+◌, ◌-◌, ◌*◌, ◌%◌, ◌^◌}

-- The number of values of a uint64_t (size_t and uintptr_t on the targets of the build).
abbrev pub word : ℕ
word = 2 ^ 64

abbrev pub word32 : ℕ
word32 = 2 ^ 32

abbrev pub add64 : ℕ → ℕ → ℕ
add64 a b = (a + b) % word

-- `-` on ℕ stops at 0, so the modulus is added first.
abbrev pub sub64 : ℕ → ℕ → ℕ
sub64 a b = (a + (word - b)) % word

-- `~x`
abbrev pub not64 : ℕ → ℕ
not64 x = word - 1 - x

abbrev pub mul64 : ℕ → ℕ → ℕ
mul64 a b = a * b % word
