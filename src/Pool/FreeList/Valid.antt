-- ===== src/Pool/FreeList/Valid.antt =====
-- The representation invariant of SPSCFreeList, and the addresses that a list holds.
use message_us_cld.Prelude.{
  ℕ, ◌-◌, ◌^◌, ◌≤◌, ◌<◌, ◌≡◌, arith, List, length, length-set, word, sub64, bit_and,
}
use native.Mathlib.Nat.{pow-le-pow_right}
use message_us_cld.Ring.{window}
use message_us_cld.Pool.FreeList.{FreeList, push, pop}

-- A ring of `2 ^ k` slots with a matching mask, both positions in range, and no more entries than
-- slots.
pub record IsValid (k : ℕ) (f : FreeList) : Type 0 where
  pub small : k ≤ 63
  pub capacity : f.cap ≡ 2 ^ k
  pub masked : f.mask ≡ f.cap - 1
  pub storage : length f.slots ≡ f.cap
  pub reading : f.rp < word
  pub writing : f.wp < word
  pub fits : sub64 f.wp f.rp ≤ f.cap

-- The addresses in the list, the next to be handed out first.
abbrev pub contents : FreeList → List ℕ
contents f = window (λ p. bit_and p f.mask) 0 f.slots f.rp (sub64 f.wp f.rp)

pub cap-le : {k : ℕ} {f : FreeList} → IsValid k f → f.cap ≤ 2 ^ 63
cap-le {k} {f} v = omega (arith, v.capacity, pow-le-pow_right {n = 2} (omega arith) v.small)

pub push-IsValid : {k : ℕ} {f : FreeList} (x : ℕ) → IsValid k f → IsValid k (push f x).1
unfolding push
push-IsValid {k} {f} x v = ground (arith, cap-le v, length-set f.slots (bit_and f.wp f.mask) x)

pub pop-IsValid : {k : ℕ} {f : FreeList} → IsValid k f → IsValid k (pop f).1
unfolding pop
pop-IsValid {k} {f} v = ground (arith, cap-le v)

pub cap-push : (f : FreeList) (x : ℕ) → (push f x).1.cap ≡ f.cap
unfolding push
cap-push f x = ground arith

pub cap-pop : (f : FreeList) → (pop f).1.cap ≡ f.cap
unfolding pop
cap-pop f = ground arith
