-- ===== src/Prelude/Smear.antt =====
-- `x | (x >> j)` digit by digit: how a run of ones below the highest digit grows.
use Prim.Native.Nat.{
  ℕ, zero, suc, ◌+◌, ◌*◌, ◌/◌, ◌%◌, ◌^◌, ◌≤◌, ◌<◌, max, bit_or, digits, bit_or-bitwise,
}
use mathlib.Core.Path.{◌≡◌, refl, ap, sym, ◌∙◌}
use native.Mathlib.Nat.{two-pow-succ, div-div-eq-div-mul, pow-succ'}
use native.Mathlib.Decide.{dec_lt}
use native.Mathlib.Omega.{arith}

or_fuel_irrelevant :
    (f g a b : ℕ) → a ≤ f → a ≤ g → digits (λ t. t) max f a b ≡ digits (λ t. t) max g a b
or_fuel_irrelevant zero zero a b p q = refl
or_fuel_irrelevant zero (suc g) zero b p q = refl
or_fuel_irrelevant zero (suc g) (suc a) b p q = absurd (omega arith)
or_fuel_irrelevant (suc f) zero zero b p q = refl
or_fuel_irrelevant (suc f) zero (suc a) b p q = absurd (omega arith)
or_fuel_irrelevant (suc f) (suc g) zero b p q = refl
or_fuel_irrelevant (suc f) (suc g) (suc a) b p q =
    omega (arith, or_fuel_irrelevant f g (suc a / 2) (b / 2) (omega arith) (omega arith))

-- The last digit of a disjunction, and the digits before it.
or_last_digit : (a b : ℕ) → bit_or a b ≡ 2 * bit_or (a / 2) (b / 2) + max (a % 2) (b % 2)
or_last_digit zero b = omega (arith, bit_or-bitwise 0 b, bit_or-bitwise 0 (b / 2))
or_last_digit (suc a) b = omega (
  arith,
  bit_or-bitwise (suc a) b,
  bit_or-bitwise (suc a / 2) (b / 2),
  or_fuel_irrelevant a (suc a / 2) (suc a / 2) (b / 2) (omega arith) (omega arith),
)

-- The digit of weight `2 ^ i`.
digit : ℕ → ℕ → ℕ
digit zero x = x % 2
digit (suc i) x = digit i (x / 2)

digit-or : (i a b : ℕ) → digit i (bit_or a b) ≡ max (digit i a) (digit i b)
unfolding digit
digit-or zero a b = omega (arith, or_last_digit a b)
digit-or (suc i) a b = ap (digit i) (halved a b) ∙ digit-or i (a / 2) (b / 2)
  where
    halved : (a b : ℕ) → bit_or a b / 2 ≡ bit_or (a / 2) (b / 2)
    halved a b = omega (arith, or_last_digit a b)

digit-le : (i x : ℕ) → digit i x ≤ 1
unfolding digit
digit-le zero x = omega arith
digit-le (suc i) x = digit-le i (x / 2)

digit-shift : (j i x : ℕ) → digit i (x / 2 ^ j) ≡ digit (i + j) x
unfolding digit
digit-shift zero i x = ground (arith, shift_none x, ap (λ t. digit t x) (add_none i))
  where
    shift_none : (x : ℕ) → x / 2 ^ 0 ≡ x
    shift_none x = omega arith

    add_none : (i : ℕ) → i ≡ i + 0
    add_none i = omega arith
digit-shift (suc j) i x =
    ap (digit i) (ap (λ t. x / t) (pow-succ' 2 j) ∙ sym (div-div-eq-div-mul x 2 (2 ^ j)))
    ∙ digit-shift j i (x / 2)
    ∙ ap (λ t. digit t x) (add_suc i j)
  where
    add_suc : (i j : ℕ) → suc (i + j) ≡ i + suc j
    add_suc i j = omega arith

pub bit_or-lt : (k a b : ℕ) → a < 2 ^ k → b < 2 ^ k → bit_or a b < 2 ^ k
bit_or-lt zero zero zero p q = omega arith
bit_or-lt zero zero (suc b) p q = absurd (omega arith)
bit_or-lt zero (suc a) b p q = absurd (omega arith)
bit_or-lt (suc k) a b p q = omega (
  arith,
  two-pow-succ k,
  or_last_digit a b,
  bit_or-lt k (a / 2) (b / 2) (omega (arith, two-pow-succ k)) (omega (arith, two-pow-succ k)),
)

-- The `j` digits up to the one of weight `2 ^ h` are ones.
pub Ones : ℕ → ℕ → ℕ → Type 0
Ones h j x = (i : ℕ) → i ≤ h → h < i + j → digit i x ≡ 1

-- A number with highest digit `h` begins with a one.
pub highest-Ones : (h x : ℕ) → 2 ^ h ≤ x → x < 2 ^ suc h → Ones h 1 x
unfolding Ones digit
highest-Ones zero x lo hi zero p q = omega arith
highest-Ones zero x lo hi (suc i) p q = absurd (omega arith)
highest-Ones (suc h) x lo hi zero p q = absurd (omega arith)
highest-Ones (suc h) x lo hi (suc i) p q =
    highest-Ones h (x / 2) (omega (arith, two-pow-succ h))
      (omega (arith, two-pow-succ h, two-pow-succ (suc h))) i (omega arith) (omega arith)

-- One smearing step doubles the run.
pub Ones-smear : (h j x : ℕ) → Ones h j x → Ones h (j + j) (bit_or x (x / 2 ^ j))
unfolding Ones
Ones-smear h j x ones i p q = elim (dec_lt h (i + j)) [
  | yes near ↦ omega (arith, digit-or i x (x / 2 ^ j), ones i p near, digit-le i (x / 2 ^ j))
  | no far ↦ omega (
    arith,
    digit-or i x (x / 2 ^ j),
    digit-shift j i x,
    ones (i + j) (omega arith) (omega arith),
    digit-le i x,
  )
]

-- With all digits ones, the number is one below the next power of two.
pub add-one-pow : (h j x : ℕ) → x < 2 ^ suc h → h < j → Ones h j x → x + 1 ≡ 2 ^ suc h
unfolding Ones digit
add-one-pow zero j x hi far ones = omega (arith, ones 0 (omega arith) (omega arith))
add-one-pow (suc h) j x hi far ones = omega (
  arith,
  two-pow-succ (suc h),
  ones 0 (omega arith) (omega arith),
  add-one-pow h (suc h) (x / 2) (omega (arith, two-pow-succ (suc h))) (omega arith)
      (λ i p q. ones (suc i) (omega arith) (omega arith)),
)

-- Every positive number has a highest digit.
pub highest_digit :
    (k x : ℕ) → 0 < x → x < 2 ^ k → (h : ℕ) × (h < k) × (2 ^ h ≤ x) × (x < 2 ^ suc h)
highest_digit zero x pos hi = absurd (omega arith)
highest_digit (suc k) x pos hi = elim (dec_lt x (2 ^ k)) [
  | yes below ↦ let (h, lt, lo, up) = highest_digit k x pos below in (h, omega arith, lo, up)
  | no above ↦ (k, omega arith, omega arith, hi)
]
