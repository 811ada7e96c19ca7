-- ===== src/Prelude/Bits.antt =====
-- `x & (2^k - 1)` as a remainder, at every width k.
use Prim.Native.Nat.{
  ℕ, zero, suc, ◌+◌, ◌-◌, ◌*◌, ◌/◌, ◌%◌, ◌^◌, ◌≤◌, ◌<◌, min, bit_and, digits, bit_and-bitwise,
}
use mathlib.Core.Path.{◌≡◌, refl, ap, ap₂, ◌∙◌}
use native.Mathlib.Nat.{
  two-pow-succ, one-le-pow, div-add-mod, mul-add-mod_self_left, mod-eq_of_lt, mod-lt,
}
use native.Mathlib.Omega.{arith}

-- The digits of a conjunction do not depend on the fuel, once it reaches the left operand.
fuel_irrelevant :
    (f g a b : ℕ) → a ≤ f → a ≤ g → digits (λ _. zero) min f a b ≡ digits (λ _. zero) min g a b
fuel_irrelevant zero zero a b p q = refl
fuel_irrelevant zero (suc g) zero b p q = refl
fuel_irrelevant zero (suc g) (suc a) b p q = absurd (omega arith)
fuel_irrelevant (suc f) zero zero b p q = refl
fuel_irrelevant (suc f) zero (suc a) b p q = absurd (omega arith)
fuel_irrelevant (suc f) (suc g) zero b p q = refl
fuel_irrelevant (suc f) (suc g) (suc a) b p q =
    omega (arith, fuel_irrelevant f g (suc a / 2) (b / 2) (omega arith) (omega arith))

-- The last digit of a conjunction, and the digits before it.
and_last_digit : (a b : ℕ) → bit_and a b ≡ 2 * bit_and (a / 2) (b / 2) + min (a % 2) (b % 2)
and_last_digit zero b = omega (arith, bit_and-bitwise 0 b, bit_and-bitwise 0 (b / 2))
and_last_digit (suc a) b = omega (
  arith,
  bit_and-bitwise (suc a) b,
  bit_and-bitwise (suc a / 2) (b / 2),
  fuel_irrelevant a (suc a / 2) (suc a / 2) (b / 2) (omega arith) (omega arith),
)

bit_and-zero_below : (n a : ℕ) → a ≤ n → bit_and a 0 ≡ 0
bit_and-zero_below n zero h = refl
bit_and-zero_below zero (suc a) h = absurd (omega arith)
bit_and-zero_below (suc n) (suc a) h =
    omega (arith, and_last_digit (suc a) 0, bit_and-zero_below n (suc a / 2) (omega arith))

pub bit_and-zero : (a : ℕ) → bit_and a 0 ≡ 0
bit_and-zero a = bit_and-zero_below a a (omega arith)

times_two_pow_suc : (q k : ℕ) → q * 2 ^ suc k ≡ 2 * (q * 2 ^ k)
times_two_pow_suc q k = omega (arith, ap (λ t. q * t) (two-pow-succ k))

-- Conjunction passes over a common shift, and the low part of the left operand is masked out.
pub bit_and_shifted :
    (k q r m : ℕ) → r < 2 ^ k → bit_and (q * 2 ^ k + r) (m * 2 ^ k) ≡ bit_and q m * 2 ^ k
bit_and_shifted zero q r m h = ground (arith, ap₂ bit_and (q_eq q r h) (m_eq m))
  where
    q_eq : (q r : ℕ) → r < 2 ^ 0 → q * 2 ^ 0 + r ≡ q
    q_eq q r h = omega arith

    m_eq : (m : ℕ) → m * 2 ^ 0 ≡ m
    m_eq m = omega arith
bit_and_shifted (suc k) q r m h = ground (
  arith,
  and_last_digit (q * 2 ^ suc k + r) (m * 2 ^ suc k),
  times_two_pow_suc q k,
  times_two_pow_suc m k,
  times_two_pow_suc (bit_and q m) k,
  two-pow-succ k,
  bit_and_shifted k q (r / 2) m (omega (arith, two-pow-succ k)),
)

-- The remainder by `2 * p`, from the remainder of the half by `p`.
mod_double : (p a : ℕ) → 0 < p → a % (2 * p) ≡ 2 * (a / 2 % p) + a % 2
mod_double p a h =
    ap (λ t. t % (2 * p)) split
    ∙ mul-add-mod_self_left (2 * p) (a / 2 / p) (2 * (a / 2 % p) + a % 2)
    ∙ mod-eq_of_lt (omega (arith, mod-lt (a / 2) h))
  where
    split : a ≡ 2 * p * (a / 2 / p) + (2 * (a / 2 % p) + a % 2)
    split = omega (arith, div-add-mod (a / 2) p)

-- A mask of `k` ones keeps the remainder by `2 ^ k`.
pub bit_and_mask : (k a : ℕ) → bit_and a (2 ^ k - 1) ≡ a % 2 ^ k
bit_and_mask zero a = omega (arith, bit_and-zero a)
bit_and_mask (suc k) a = ground (
  arith,
  and_last_digit a (2 ^ suc k - 1),
  two-pow-succ k,
  one-le-pow k 2,
  bit_and_mask k (a / 2),
  mod_double (2 ^ k) a,
)
