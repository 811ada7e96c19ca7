-- ===== src/Pool/Size/Rounding.antt =====
-- What `align_up` and `next_pow2` round to.
use native.Mathlib.Decide.{dec_lt}
use native.Mathlib.Nat.{lt_of_le_of_lt, div-le_self, pow-le-pow_right, two-pow-succ}
use message_us_cld.Prelude.{
  ℕ, zero, suc, ◌+◌, ◌-◌, ◌*◌, ◌/◌, ◌%◌, ◌^◌, ◌≤◌, ◌<◌, ◌≡◌, ap, ◌∙◌, arith, bit_and, bit_and_mask,
  bit_and_shifted, word, add64, sub64, Ones, highest-Ones, Ones-smear, add-one-pow, highest_digit,
  bit_or-lt,
}
use message_us_cld.Pool.Size.{cache_line, align_up, smear, smear_all, next_pow2}

-- Rounding up to the cache line, short of the end of the address space, gives the least multiple of
-- 64 that is not below the size.
pub align_up_least :
    (n : ℕ)
    → n + 64 ≤ word
    → (n ≤ align_up n cache_line)
      × (align_up n cache_line < n + cache_line)
      × (align_up n cache_line % cache_line ≡ 0)
unfolding align_up
align_up_least n h = omega (
  arith,
  split,
  bit_and_shifted 6 (x / 2 ^ 6) (x % 2 ^ 6) (2 ^ 58 - 1) (omega arith),
  bit_and_mask 58 (x / 2 ^ 6),
)
  where
    x : ℕ
    x = sub64 (add64 n 64) 1

    split :
        bit_and x ((2 ^ 58 - 1) * 2 ^ 6)
        ≡ bit_and (x / 2 ^ 6 * 2 ^ 6 + x % 2 ^ 6) ((2 ^ 58 - 1) * 2 ^ 6)
    split = ap (λ t. bit_and t ((2 ^ 58 - 1) * 2 ^ 6)) (omega arith)

smear-lt : (h j x : ℕ) → x < 2 ^ suc h → smear j x < 2 ^ suc h
unfolding smear
smear-lt h j x lt = bit_or-lt (suc h) x (x / 2 ^ j) lt (lt_of_le_of_lt (div-le_self x (2 ^ j)) lt)

smear-Ones : (h j x : ℕ) → Ones h j x → Ones h (j + j) (smear j x)
unfolding smear
smear-Ones = Ones-smear

-- Six doublings of the run of ones cover the 64 digits.
smear_all_lem : (h x : ℕ) → h < 64 → 2 ^ h ≤ x → x < 2 ^ suc h → smear_all x + 1 ≡ 2 ^ suc h
unfolding smear_all
smear_all_lem h x small lo hi = add-one-pow h 64 (smear_all x) (lt 5) small ones
  where
    stage : ℕ → ℕ
    stage zero = smear 1 x
    stage (suc i) = smear (2 ^ suc i) (stage i)

    lt : (i : ℕ) → stage i < 2 ^ suc h
    lt zero = smear-lt h 1 x hi
    lt (suc i) = smear-lt h (2 ^ suc i) (stage i) (lt i)

    ones : Ones h 64 (smear_all x)
    ones = smear-Ones h 32 (stage 4) (
        smear-Ones h 16 (stage 3) (
          smear-Ones h 8 (stage 2) (
            smear-Ones h 4 (stage 1)
              (smear-Ones h 2 (stage 0) (smear-Ones h 1 x (highest-Ones h x lo hi))))))

next_pow2_one : (n : ℕ) → n ≤ 1 → next_pow2 n ≡ 1
unfolding next_pow2
next_pow2_one n le = ground arith

next_pow2_big :
    (n h : ℕ)
    → 1 < n
    → h < 63
    → 2 ^ h ≤ n - 1
    → n - 1 < 2 ^ suc h
    → (next_pow2 n ≡ 2 ^ suc h) × (n ≤ 2 ^ suc h) × (2 ^ suc h < 2 * n)
unfolding next_pow2
next_pow2_big n h big small lo hi = (rounded, omega arith, omega (arith, two-pow-succ h))
  where
    fits : 2 ^ suc h ≤ 2 ^ 63
    fits = pow-le-pow_right {n = 2} (omega arith) {i = suc h} {j = 63} small

    smeared : smear_all (sub64 n 1) + 1 ≡ 2 ^ suc h
    smeared =
        ap (λ t. smear_all t + 1) {x = sub64 n 1} {y = n - 1} (omega (arith, fits))
        ∙ smear_all_lem h (n - 1) (omega arith) lo hi

    rounded : next_pow2 n ≡ 2 ^ suc h
    rounded = ground (arith, smeared, fits)

-- For a size from 1 to 2^63, `next_pow2` is a power of two, not below the size and less than twice it.
pub next_pow2_least :
    (n : ℕ)
    → 0 < n
    → n ≤ 2 ^ 63
    → (k : ℕ) × (k ≤ 63) × (next_pow2 n ≡ 2 ^ k) × (n ≤ 2 ^ k) × (2 ^ k < 2 * n)
next_pow2_least n pos small = elim (dec_lt 1 n) [
  | yes big ↦
      let (h, lt, lo, hi) = highest_digit 63 (n - 1) (omega arith) (omega arith) in
      let (eq, above, near) = next_pow2_big n h big lt lo hi in (suc h, lt, eq, above, near)
  | no one ↦ (0, omega arith, next_pow2_one n (omega arith), omega arith, omega arith)
]
