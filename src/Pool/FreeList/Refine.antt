-- ===== src/Pool/FreeList/Refine.antt =====
-- SPSCFreeList behaves as a bounded FIFO of addresses.
use message_us_cld.Prelude.{
  ℕ, suc, ◌+◌, ◌-◌, ◌%◌, ◌^◌, ◌≤◌, ◌<◌, ◌≡◌, ◌≢◌, ◌⊎◌, inl, inr, refl, sym, ap, ap₂, ◌∙◌, arith,
  true, false, List, [], ◌∷◌, ◌++◌, some, length, length-replicate, word, add64, sub64, bit_and,
  get_or, set, subst, replicate, bit_and_mask,
}
use native.Mathlib.Decide.{dec_lt, ℕ_discrete}
use native.Mathlib.Nat.{one-le-pow, pow-le-pow_right, mod_self}
use message_us_cld.Fifo
use message_us_cld.Fifo.{Op, put, get, Reply, stored, taken}
use message_us_cld.Ring.{IsRing, window, length-window, window-push}
use message_us_cld.Ring.Mask.{mask-IsRing}
use message_us_cld.Pool.FreeList.{FreeList, make, push, pop}
use message_us_cld.Pool.FreeList.Valid.{
  IsValid, contents, cap-le, push-IsValid, pop-IsValid, cap-push, cap-pop,
}

pub length-contents : (f : FreeList) → length (contents f) ≡ sub64 f.wp f.rp
length-contents f = length-window (λ p. bit_and p f.mask) 0 f.slots f.rp (sub64 f.wp f.rp)

-- The masks of a valid list go round its `2 ^ k` slots.
pub ring : {k : ℕ} {f : FreeList} → IsValid k f → IsRing f.cap (λ p. bit_and p f.mask)
ring {k} {f} v =
    subst (λ c. IsRing c (λ p. bit_and p f.mask)) (sym v.capacity)
      (subst (λ m. IsRing (2 ^ k) (λ p. bit_and p m)) (sym (v.masked ∙ ap (λ c. c - 1) v.capacity))
        (mask-IsRing k (omega (arith, v.small))))

-- The list after a push that finds room, and after a pop that finds an address.
abbrev stored_at_end : FreeList → ℕ → FreeList
stored_at_end f x = record f { slots = set f.slots (bit_and f.wp f.mask) x; wp = add64 f.wp 1 }

abbrev without_first : FreeList → FreeList
without_first f = record f { rp = add64 f.rp 1 }

push_room : (f : FreeList) (x : ℕ) → sub64 f.wp f.rp < f.cap → push f x ≡ (true, stored_at_end f x)
unfolding push
push_room f x room = ground arith

push_full : (f : FreeList) (x : ℕ) → f.cap ≤ sub64 f.wp f.rp → push f x ≡ (false, f)
unfolding push
push_full f x full = ground arith

pop_some :
    (f : FreeList) → f.rp ≢ f.wp → pop f ≡ (get_or f.slots (bit_and f.rp f.mask) 0, without_first f)
unfolding pop
pop_some f ne = ground arith

pop_empty : (f : FreeList) → f.rp ≡ f.wp → pop f ≡ (0, f)
unfolding pop
pop_empty f eq = ground arith

module _ {k : ℕ} {f : FreeList} (v : IsValid k f) where
  contents-stored :
      (x : ℕ) → sub64 f.wp f.rp < f.cap → contents (stored_at_end f x) ≡ contents f ++ (x ∷ [])
  contents-stored x room =
      ap₂ (λ p n. window (λ q. bit_and q f.mask) 0 (set f.slots (bit_and p f.mask) x) f.rp n)
        {x = f.wp} {y = (f.rp + sub64 f.wp f.rp) % word} {v = suc (sub64 f.wp f.rp)}
        (omega (arith, v)) (omega (arith, v, cap-le v))
      ∙ window-push (ring v) 0 f.slots f.rp (sub64 f.wp f.rp) x (omega (arith, v.storage)) room

  pub contents-first :
      f.rp ≢ f.wp → contents f ≡ get_or f.slots (bit_and f.rp f.mask) 0 ∷ contents (without_first f)
  contents-first ne =
      ap (window (λ q. bit_and q f.mask) 0 f.slots f.rp) {x = sub64 f.wp f.rp}
        {y = suc (sub64 f.wp (add64 f.rp 1))} (omega (arith, v))

  contents-empty : f.rp ≡ f.wp → contents f ≡ []
  contents-empty eq =
      ap (window (λ q. bit_and q f.mask) 0 f.slots f.rp) {x = sub64 f.wp f.rp} {y = 0}
        (omega (arith, v))

  -- A push stores exactly as the bounded queue of the addresses does.
  pub push_refines :
      (x : ℕ) → let (done, g) = push f x in (done, contents g) ≡ Fifo.push f.cap (contents f) x
  unfolding Fifo.push
  push_refines x = elim (dec_lt (sub64 f.wp f.rp) f.cap) [
    | yes room ↦ rw (push_room f x room) (ground (arith, contents-stored x room, length-contents f))
    | no full ↦ rw (push_full f x (omega arith)) (ground (arith, length-contents f))
  ]

  -- A pop takes exactly as the queue does, and answers 0 when it is empty.
  pub pop_refines : let (x, g) = pop f in (x, contents g) ≡ Fifo.pop 0 (contents f)
  unfolding Fifo.pop
  pop_refines = elim (ℕ_discrete f.rp f.wp) [
    | yes eq ↦ rw (pop_empty f eq) (ground (arith, contents-empty eq))
    | no ne ↦ rw (pop_some f ne, contents-first ne)
  ]

-- The calls of a client in order, with what each answers.
pub run : FreeList → List Op → List Reply
run f [] = []
run f (put x ∷ ops) = let (done, g) = push f x in stored done ∷ run g ops
run f (get ∷ ops) = let (x, g) = pop f in taken x ∷ run g ops

-- No sequence of pushes and pops tells a valid list from the bounded queue of its addresses, also
-- when the positions wrap.
pub run_refines :
    {k : ℕ} (ops : List Op) {f : FreeList}
    → IsValid k f
    → run f ops ≡ Fifo.run f.cap (contents f) ops
unfolding run Fifo.run
run_refines [] v = refl
run_refines (put x ∷ ops) {f} v =
    rw (run_refines ops (push-IsValid x v), ← push_refines v x, cap-push)
run_refines (get ∷ ops) {f} v = rw (run_refines ops (pop-IsValid v), ← pop_refines v, cap-pop)

-- A list of a power-of-two capacity up to 2^63 is valid and holds nothing.
pub make-IsValid :
    (k : ℕ) → k ≤ 63 → (f : FreeList) × (make (2 ^ k) ≡ some f) × IsValid k f × (contents f ≡ [])
unfolding make
make-IsValid k small = (fresh, made, valid, refl)
  where
    bound : 2 ^ k ≤ 2 ^ 63
    bound = pow-le-pow_right {n = 2} (omega arith) small

    low : sub64 (2 ^ k) 1 ≡ 2 ^ k - 1
    low = omega (arith, bound, one-le-pow k 2)

    fresh : FreeList
    fresh = record {
      wp = 0;
      rp = 0;
      cap = 2 ^ k;
      mask = sub64 (2 ^ k) 1;
      slots = replicate (2 ^ k) 0;
    }

    made : make (2 ^ k) ≡ some fresh
    made = ground (arith, ap (bit_and (2 ^ k)) low, bit_and_mask k (2 ^ k), mod_self (2 ^ k))

    valid : IsValid k fresh
    valid = record {
      small = small;
      capacity = refl;
      masked = low;
      storage = length-replicate (2 ^ k) 0;
      reading = omega arith;
      writing = omega arith;
      fits = omega arith;
    }

-- An empty list answers 0 and stays empty; any other gives its first address.
pub pop_cases :
    {k : ℕ} {f : FreeList}
    → IsValid k f
    → ((contents f ≡ []) × ((pop f).0 ≡ 0) × (contents (pop f).1 ≡ []))
      ⊎ (contents f ≡ (pop f).0 ∷ contents (pop f).1)
pop_cases {k} {f} v = elim (ℕ_discrete f.rp f.wp) [
  | yes eq ↦ rw (pop_empty f eq) (inl (contents-empty v eq, refl, contents-empty v eq))
  | no ne ↦ rw (pop_some f ne) (inr (contents-first v ne))
]

-- A list with room takes the address behind the others.
pub push-room :
    {k : ℕ} {f : FreeList} (x : ℕ)
    → IsValid k f
    → length (contents f) < f.cap
    → ((push f x).0 ≡ true) × (contents (push f x).1 ≡ contents f ++ (x ∷ []))
push-room {k} {f} x v room =
    rw (push_room f x (omega (arith, length-contents f)))
      (refl, contents-stored v x (omega (arith, length-contents f)))

-- A full list refuses an address.
pub push-full : {f : FreeList} (x : ℕ) → f.cap ≤ length (contents f) → push f x ≡ (false, f)
push-full {f} x full = push_full f x (omega (arith, length-contents f))
