-- ===== src/Timer/Epoll/Queue.antt =====
-- The priority queue of EpollTimer and its map of active timers (timer/include/epoll_timer.hpp).
use native.Mathlib.Decide.{ℕ_discrete, dec_lt}
use mathlib.Core.List.{Memᴰ}
use mathlib.Core.List.Memᴰ
use message_us_cld.Prelude.{ℕ, ◌≤◌, ◌≡◌, ◌≢◌, refl, arith, List, [], ◌∷◌, some, none, inl, inr}
use message_us_cld.Timer.Epoll.{Entry, push, find, erase, assign}

-- All entries expire at `m` or later.
abbrev pub AtLeast : ℕ → List Entry → Type 0
AtLeast m [] = Unit {0}
AtLeast m (e ∷ es) = (m ≤ e.expiry_ns) × AtLeast m es

abbrev pub Sorted : List Entry → Type 0
Sorted [] = Unit {0}
Sorted (e ∷ es) = AtLeast e.expiry_ns es × Sorted es

-- Every active timer has its entry in the queue.
abbrev pub Held : List (ℕ × Entry) → List Entry → Type 0
Held active heap = (i : ℕ) (e : Entry) → find active i ≡ some e → (e.id ≡ i) × Memᴰ e heap

pub AtLeast-le : (m n : ℕ) (es : List Entry) → m ≤ n → AtLeast n es → AtLeast m es
AtLeast-le m n [] le a = tt
AtLeast-le m n (e ∷ es) le (h, a) = (omega (arith, le, h), AtLeast-le m n es le a)

pub push-AtLeast :
    (m : ℕ) (e : Entry) (es : List Entry) → m ≤ e.expiry_ns → AtLeast m es → AtLeast m (push e es)
unfolding push
push-AtLeast m e [] le a = (le, tt)
push-AtLeast m e (x ∷ es) le (h, a) = elim (dec_lt e.expiry_ns x.expiry_ns) [
  | yes lt ↦ ground (arith, lt, le, h, a)
  | no ge ↦ (let rest = push-AtLeast m e es le a in ground (arith, ge, h, rest))
]

pub push-Sorted : (e : Entry) (es : List Entry) → Sorted es → Sorted (push e es)
unfolding push
push-Sorted e [] s = (tt, tt)
push-Sorted e (x ∷ es) (a, s) = elim (dec_lt e.expiry_ns x.expiry_ns) [
  | yes lt ↦
      let le : e.expiry_ns ≤ x.expiry_ns = omega (arith, lt) in
      let all = AtLeast-le e.expiry_ns x.expiry_ns es le a in ground (arith, lt, le, all, a, s)
  | no ge ↦
      let rest = push-Sorted e es s in
      let all = push-AtLeast x.expiry_ns e es (omega (arith, ge)) a in ground (arith, ge, rest, all)
]

pub Memᴰ-push_self : (e : Entry) (es : List Entry) → Memᴰ e (push e es)
unfolding push
Memᴰ-push_self e [] = Memᴰ.head refl
Memᴰ-push_self e (x ∷ es) = elim (dec_lt e.expiry_ns x.expiry_ns) [
  | yes lt ↦ (let h : Memᴰ e (e ∷ x ∷ es) = Memᴰ.head refl in ground (arith, lt, h))
  | no ge ↦
      let h : Memᴰ e (x ∷ push e es) = Memᴰ.tail (Memᴰ-push_self e es) in ground (arith, ge, h)
]

pub Memᴰ-push : (y e : Entry) (es : List Entry) → Memᴰ y es → Memᴰ y (push e es)
unfolding push
Memᴰ-push y e [] m = Memᴰ.tail m
Memᴰ-push y e (x ∷ es) m = elim (dec_lt e.expiry_ns x.expiry_ns) [
  | yes lt ↦ (let h : Memᴰ y (e ∷ x ∷ es) = Memᴰ.tail m in ground (arith, lt, h))
  | no ge ↦
      let h : Memᴰ y (x ∷ push e es) = elim (Memᴰ.cases_cons m) [
        | inl q ↦ Memᴰ.head q
        | inr r ↦ Memᴰ.tail (Memᴰ-push y e es r)
      ] in
      ground (arith, ge, h)
]

pub find-erase_self : (es : List (ℕ × Entry)) (id : ℕ) → find (erase es id) id ≡ none
unfolding find erase
find-erase_self [] id = refl
find-erase_self ((i, e) ∷ es) id = elim (ℕ_discrete i id) [
  | yes same ↦ (let rest = find-erase_self es id in ground (arith, same, rest))
  | no ne ↦ (let rest = find-erase_self es id in ground (arith, ne, rest))
]

pub find-erase_ne : (es : List (ℕ × Entry)) (id j : ℕ) → j ≢ id → find (erase es id) j ≡ find es j
unfolding find erase
find-erase_ne [] id j ne = refl
find-erase_ne ((i, e) ∷ es) id j ne =
    let rest = find-erase_ne es id j ne in
    elim (ℕ_discrete i id) [
      | yes same ↦ ground (arith, same, ne, rest)
      | no other ↦ elim (ℕ_discrete i j) [
        | yes found ↦ ground (arith, other, found, rest)
        | no more ↦ ground (arith, other, more, rest)
      ]
    ]

pub find-assign_self : (es : List (ℕ × Entry)) (e : Entry) → find (assign es e) e.id ≡ some e
unfolding find
find-assign_self es e = ground arith

pub find-assign_ne :
    (es : List (ℕ × Entry)) (e : Entry) (j : ℕ) → j ≢ e.id → find (assign es e) j ≡ find es j
unfolding find
find-assign_ne es e j ne = (let rest = find-erase_ne es e.id j ne in ground (arith, ne, rest))
