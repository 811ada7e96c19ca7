-- ===== src/Bus/Threads/Reading.antt =====
-- Each step of the consumer keeps the invariant.
use mathlib.Core.List.{map}
use native.Mathlib.Decide.{dec_lt, ℕ_discrete}
use message_us_cld.Prelude.{
  ℕ, zero, suc, ◌+◌, ◌-◌, ◌%◌, ◌≤◌, ◌<◌, ◌≡◌, ◌≢◌, ◌⊎◌, inl, inr, refl, sym, ap, ap₂, ◌∙◌, subst,
  arith, Bool, true, false, List, [], ◌∷◌, ◌++◌, length, take, length-take, word, add64, sub64,
  get_or, append_assoc, if◌then◌else◌, ltb,
}
use message_us_cld.Ring.{window}
use message_us_cld.Bus.Layout.{slot_index}
use message_us_cld.Bus.Segment.{Slot}
use message_us_cld.Bus.Endpoints.{Consumer, blank, arrived, copy_out, release}
use message_us_cld.Bus.Threads.{
  System, waiting, ready, copied, after_check, after_copy, after_release,
}
use message_us_cld.Bus.Threads.Valid.{IsValid, message, in_ring, PoppingOk, clip}

pop_checked :
    (buf_size : ℕ) (c : Consumer) (slots : List Slot) (some_left : Bool)
    → (some_left ≡ true → c.read_pos ≢ c.write_cache)
    → PoppingOk buf_size c slots (if some_left then ready else waiting)
pop_checked buf_size c slots true there = there refl
pop_checked buf_size c slots false there = tt

take-nil : (n : ℕ) → take {A = ℕ} n [] ≡ []
take-nil zero = refl
take-nil (suc n) = refl

pub take_of_short : (n : ℕ) (xs : List ℕ) → length xs ≤ n → take n xs ≡ xs
take_of_short n [] short = take-nil n
take_of_short zero (x ∷ xs) short = absurd (omega arith)
take_of_short (suc n) (x ∷ xs) short = ap (λ ys. x ∷ ys) (take_of_short n xs (omega arith))

take_of_take : (n m : ℕ) (xs : List ℕ) → n ≤ m → take n xs ≡ take n (take m xs)
take_of_take zero m xs le = refl
take_of_take (suc n) zero xs le = absurd (omega arith)
take_of_take (suc n) (suc m) [] le = refl
take_of_take (suc n) (suc m) (x ∷ xs) le = ap (λ ys. x ∷ ys) (take_of_take n m xs (omega arith))

-- Taking as far as the smaller of two limits is taking by the one and then by the other.
take-clipped : (n m : ℕ) (xs : List ℕ) → take (if ltb n m then n else m) xs ≡ take m (take n xs)
take-clipped n m xs = elim (dec_lt n m) [
  | yes lt ↦ ground (arith, take_of_short m (take n xs) (omega (arith, length-take n xs)))
  | no ge ↦ ground (arith, take_of_take m n xs (omega arith))
]

module _ {k buf_size : ℕ} {s : System} (v : IsValid k buf_size s) where
  open s use {seg, prod, cons}

  pub arrived_result :
      (some_left : Bool) × (wc : ℕ) × (arrived seg cons
        ≡ (some_left, record cons { write_cache = wc }))
      × ((wc ≡ cons.write_cache) ⊎ (wc ≡ seg.control.write_pos))
      × (some_left ≡ true → cons.read_pos ≢ wc)
  unfolding arrived
  arrived_result = elim (ℕ_discrete cons.read_pos cons.write_cache) [
    | no ne ↦ (true, cons.write_cache, ground arith, inl refl, λ e. ne)
    | yes same ↦ elim (ℕ_discrete cons.read_pos seg.control.write_pos) [
      | no ne ↦ (true, seg.control.write_pos, ground arith, inr refl, λ e. ne)
      | yes eq ↦ (false, seg.control.write_pos, ground arith, inr refl, λ e. cc)
    ]
  ]

  pub check-IsValid : IsValid k buf_size (after_check s)
  check-IsValid =
      let (some_left, wc, result, which, there) = arrived_result in
      rw result (record {
        small = v.small;
        prod_capacity = v.prod_capacity;
        cons_capacity = v.cons_capacity;
        storage = v.storage;
        writer = v.writer;
        reader = v.reader;
        write_range = v.write_range;
        read_range = v.read_range;
        read_cache_range = v.read_cache_range;
        write_cache_range = ground (arith, v.write_range, v.write_cache_range);
        read_cache_behind = v.read_cache_behind;
        read_cache_fits = v.read_cache_fits;
        write_cache_behind = ground (arith, v.write_cache_behind);
        push_ok = v.push_ok;
        pop_ok = pop_checked buf_size (record cons { write_cache = wc }) seg.slots some_left there;
        sent_within = v.sent_within;
        flow = v.flow;
      })

  pub copy-IsValid : s.popping ≡ ready → IsValid k buf_size (after_copy buf_size s)
  unfolding copy_out
  copy-IsValid e = record {
    small = v.small;
    prod_capacity = v.prod_capacity;
    cons_capacity = v.cons_capacity;
    storage = v.storage;
    writer = v.writer;
    reader = v.reader;
    write_range = v.write_range;
    read_range = v.read_range;
    read_cache_range = v.read_cache_range;
    write_cache_range = v.write_cache_range;
    read_cache_behind = v.read_cache_behind;
    read_cache_fits = v.read_cache_fits;
    write_cache_behind = v.write_cache_behind;
    push_ok = v.push_ok;
    pop_ok = (
      subst (PoppingOk buf_size cons seg.slots) e v.pop_ok,
      ap (λ bytes. (slot.size, bytes)) (take-clipped slot.size buf_size slot.payload),
    );
    sent_within = v.sent_within;
    flow = v.flow;
  }
    where
      slot : Slot
      slot = get_or seg.slots (slot_index cons.capacity cons.read_pos) blank

  abbrev pub rest : List (ℕ × List ℕ)
  rest = map message (
      window (slot_index prod.capacity) blank seg.slots ((seg.control.read_pos + 1) % word)
        (sub64 seg.control.write_pos seg.control.read_pos - 1))

  -- There is a message: the oldest in the ring.
  pub in_ring-cons :
      cons.read_pos ≢ cons.write_cache
      → in_ring s ≡ message (get_or seg.slots (slot_index cons.capacity cons.read_pos) blank) ∷ rest
  in_ring-cons ne =
      ap
        (λ n.
          map message (window (slot_index prod.capacity) blank seg.slots seg.control.read_pos n))
        {y = suc (sub64 seg.control.write_pos seg.control.read_pos - 1)}
        (omega (arith, v.reader, v.write_cache_behind, v.write_cache_range, v.read_range))
      ∙ ap (λ i. message (get_or seg.slots i blank) ∷ rest)
          (ap₂ slot_index (v.prod_capacity ∙ sym v.cons_capacity) (sym v.reader))

  abbrev Behind : Type 0
  Behind =
      (cons.read_pos ≡ seg.control.read_pos)
      × (cons.read_pos ≢ cons.write_cache)
      × (seg.control.write_pos < word)
      × (seg.control.read_pos < word)
      × (prod.read_cache < word)
      × (cons.write_cache < word)
      × (sub64 seg.control.write_pos seg.control.read_pos
          ≤ sub64 seg.control.write_pos prod.read_cache)
      × (sub64 cons.write_cache seg.control.read_pos
          ≤ sub64 seg.control.write_pos seg.control.read_pos)

  behind : cons.read_pos ≢ cons.write_cache → Behind
  behind ne = (
    v.reader, ne, v.write_range, v.read_range, v.read_cache_range, v.write_cache_range,
    v.read_cache_behind, v.write_cache_behind,
  )

  -- Releasing the oldest slot leaves the others.
  pub in_ring-release :
      (size : ℕ) (bytes : List ℕ)
      → cons.read_pos ≢ cons.write_cache
      → rest ≡ in_ring (after_release s size bytes)
  unfolding release
  in_ring-release size bytes ne =
      ap₂ (λ r n. map message (window (slot_index prod.capacity) blank seg.slots r n))
        {x = (seg.control.read_pos + 1) % word} {y = add64 cons.read_pos 1}
        (omega (arith, v.reader)) (omega (arith, behind ne))

  pub release-IsValid :
      (size : ℕ) (bytes : List ℕ)
      → s.popping ≡ copied size bytes
      → IsValid k buf_size (after_release s size bytes)
  unfolding release
  release-IsValid size bytes e = record {
    small = v.small;
    prod_capacity = v.prod_capacity;
    cons_capacity = v.cons_capacity;
    storage = v.storage;
    writer = v.writer;
    reader = refl;
    write_range = v.write_range;
    read_range = omega arith;
    read_cache_range = v.read_cache_range;
    write_cache_range = v.write_cache_range;
    read_cache_behind = omega (arith, behind ok.0);
    read_cache_fits = v.read_cache_fits;
    write_cache_behind = omega (arith, behind ok.0);
    push_ok = v.push_ok;
    pop_ok = tt;
    sent_within = v.sent_within;
    flow =
        v.flow
        ∙ ap (λ ms. s.received ++ clip buf_size ms) (in_ring-cons ok.0)
        ∙ ap (λ b. s.received ++ (b ∷ clip buf_size rest)) (sym ok.1)
        ∙ sym (append_assoc s.received ((size, bytes) ∷ []) (clip buf_size rest))
        ∙ ap (λ ms. (s.received ++ ((size, bytes) ∷ [])) ++ clip buf_size ms)
            (in_ring-release size bytes ok.0);
  }
    where
      ok : PoppingOk buf_size cons seg.slots (copied size bytes)
      ok = subst (PoppingOk buf_size cons seg.slots) e v.pop_ok
