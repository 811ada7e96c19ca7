-- ===== src/Bus/Lossy/Threads/Writes.antt =====
-- The accesses of the producer keep what holds (spsc_bus/spsc_bus.hpp: OverwriteProducer::push).
use native.Mathlib.Decide.{ℕ_discrete}
use mathlib.Core.List.{Memᴰ}
use mathlib.Core.List.Memᴰ
use message_us_cld.Prelude.{
  ℕ, ◌+◌, ◌%◌, ◌^◌, ◌<◌, ◌≡◌, ◌≢◌, inl, inr, refl, sym, ap, ◌∙◌, subst, arith, List, [], ◌∷◌, ◌++◌,
  length, drop, get_or, set, word32, length-set, get_or-set_self, get_or-set_ne, take-append,
}
use message_us_cld.Ring.{index-lt}
use message_us_cld.Bus.Layout.{slot_index}
use message_us_cld.Bus.Layout.Bounds.{slot-IsRing}
use message_us_cld.Bus.Segment.{Slot}
use message_us_cld.Bus.Endpoints.{blank, overwrite, publish}
use message_us_cld.Bus.Lossy.{mark_writing, write_over}
use message_us_cld.Bus.Lossy.Threads.{
  idle, written, marked, Reading, waiting, looked, begun, copying, Accepted, System, write_at,
  read_at, slot_of, touched, after_mark, after_scribble, after_commit, after_publish,
}
use message_us_cld.Bus.Lossy.Threads.Valid.{Whole, Closed, MarkOk, ReadOk, AllUntorn, IsValid}

Whole-append :
    (capacity i : ℕ) (committed more : List (ℕ × List ℕ)) (slot : Slot)
    → Whole capacity committed i slot
    → Whole capacity (committed ++ more) i slot
Whole-append capacity i committed more slot (even, range, inl empty) = (even, range, inl empty)
Whole-append capacity i committed more slot (even, range, inr (pos, msg, m, at, same)) =
    (even, range, inr (pos, msg, Memᴰ.append_left _ m, at, same))

AllUntorn-append :
    (capacity buf_size : ℕ) (committed more : List (ℕ × List ℕ)) (accs : List Accepted)
    → AllUntorn capacity buf_size committed accs
    → AllUntorn capacity buf_size (committed ++ more) accs
AllUntorn-append capacity buf_size committed more [] u = tt
AllUntorn-append capacity buf_size committed more (a ∷ accs) (inl empty, us) =
    (inl empty, AllUntorn-append capacity buf_size committed more accs us)
AllUntorn-append capacity buf_size committed more (a ∷ accs)
      (inr (pos, msg, m, at, size, bytes), us) =
    (
      inr (pos, msg, Memᴰ.append_left _ m, at, size, bytes),
      AllUntorn-append capacity buf_size committed more accs us,
    )

-- A store to the generation of the consumer's slot counts as a change, and then nothing is said of the
-- rest of the slot.
ReadOk-stored :
    (r : Reading) (changes : ℕ) (before after : Slot)
    → after.generation ≡ (before.generation + 1) % word32
    → ReadOk r changes before
    → ReadOk r (changes + 1) after
ReadOk-stored waiting changes before after next ok = tt
ReadOk-stored looked changes before after next ok = tt
ReadOk-stored (begun gen1) changes before after next (even, range, gen) =
    (even, range, omega (arith, gen, next))
ReadOk-stored (copying gen1 size bytes) changes before after next ((even, range, gen), same) =
    ((even, range, omega (arith, gen, next)), λ none. absurd (omega (arith, none)))

-- Other stores are made while the generation is odd, when it was stored to already.
ReadOk-odd :
    (r : Reading) (changes g : ℕ) (before after : Slot)
    → g % 2 ≡ 0
    → before.generation ≡ (g + 1) % word32
    → after.generation ≡ before.generation
    → ReadOk r changes before
    → ReadOk r changes after
ReadOk-odd waiting changes g before after even odd kept ok = tt
ReadOk-odd looked changes g before after even odd kept ok = tt
ReadOk-odd (begun gen1) changes g before after even odd kept (even1, range, gen) =
    (even1, range, kept ∙ gen)
ReadOk-odd (copying gen1 size bytes) changes g before after even odd kept
      ((even1, range, gen), same) =
    ((even1, range, kept ∙ gen), λ none. absurd (omega (arith, none, even, odd, even1, range, gen)))

module _ {k buf_size : ℕ} {s : System} (v : IsValid k buf_size s) where
  pub at_lt : write_at s < length s.seg.slots
  at_lt = omega (
    arith,
    index-lt (slot-IsRing k v.small) s.prod.write_pos,
    ap (λ c. slot_index c s.prod.write_pos) v.prod_capacity,
    v.storage,
  )

  -- A store into the slot of the producer.
  module _ (x : Slot) where
    here_now : get_or (set s.seg.slots (write_at s) x) (write_at s) blank ≡ x
    here_now = get_or-set_self s.seg.slots (write_at s) x blank at_lt

    elsewhere :
        (i : ℕ) → write_at s ≢ i → get_or (set s.seg.slots (write_at s) x) i blank ≡ slot_of s i
    elsewhere i ne = get_or-set_ne s.seg.slots (write_at s) i x blank ne

    -- With a new generation, and with the old one.
    read_stored :
        x.generation ≡ ((slot_of s (write_at s)).generation + 1) % word32
        → ReadOk s.reading (touched s) (get_or (set s.seg.slots (write_at s) x) (read_at s) blank)
    read_stored next = elim (ℕ_discrete (write_at s) (read_at s)) [
      | yes same ↦
          let now =
            subst (λ i. get_or (set s.seg.slots (write_at s) x) i blank ≡ x) same here_now in
          let ok =
            ReadOk-stored s.reading s.changes (slot_of s (read_at s)) x
              (next ∙ ap (λ i. ((slot_of s i).generation + 1) % word32) same) v.read_ok in
          let count : s.changes + 1 ≡ touched s = ground (arith, same) in
          subst
            (λ n. ReadOk s.reading n (get_or (set s.seg.slots (write_at s) x) (read_at s) blank))
            count (subst (ReadOk s.reading (s.changes + 1)) (sym now) ok)
      | no other ↦
          let count : s.changes ≡ touched s = ground (arith, other) in
          subst
            (λ n. ReadOk s.reading n (get_or (set s.seg.slots (write_at s) x) (read_at s) blank))
            count (subst (ReadOk s.reading s.changes) (sym (elsewhere (read_at s) other)) v.read_ok)
    ]

    read_scribbled :
        (g : ℕ)
        → g % 2 ≡ 0
        → (slot_of s (write_at s)).generation ≡ (g + 1) % word32
        → x.generation ≡ (slot_of s (write_at s)).generation
        → ReadOk s.reading s.changes (get_or (set s.seg.slots (write_at s) x) (read_at s) blank)
    read_scribbled g even odd kept = elim (ℕ_discrete (write_at s) (read_at s)) [
      | yes same ↦
          let now =
            subst (λ i. get_or (set s.seg.slots (write_at s) x) i blank ≡ x) same here_now in
          let ok =
            ReadOk-odd s.reading s.changes g (slot_of s (read_at s)) x even
              (subst (λ i. (slot_of s i).generation ≡ (g + 1) % word32) same odd)
              (kept ∙ ap (λ i. (slot_of s i).generation) same) v.read_ok in
          subst (ReadOk s.reading s.changes) (sym now) ok
      | no other ↦ subst (ReadOk s.reading s.changes) (sym (elsewhere (read_at s) other)) v.read_ok
    ]

  open_other :
      (msg : List ℕ) (g i : ℕ)
      → s.writing ≡ marked msg g
      → i ≢ write_at s
      → Closed s.writing (write_at s) i
  open_other msg g i e ne = subst (λ w. Closed w (write_at s) i) (sym e) ne

  marked_ok :
      (msg : List ℕ) (g : ℕ)
      → s.writing ≡ marked msg g
      → (g % 2 ≡ 0) × (g < word32) × ((slot_of s (write_at s)).generation ≡ (g + 1) % word32)
  marked_ok msg g e = subst (λ w. MarkOk w (slot_of s (write_at s))) e v.mark_ok

  pub mark-IsValid : (msg : List ℕ) → s.writing ≡ idle → IsValid k buf_size (after_mark s msg)
  unfolding mark_writing
  mark-IsValid msg e =
      let old = slot_of s (write_at s) in
      let x : Slot = record old { generation = (old.generation + 1) % word32 } in
      let (even, range, held) =
        v.closed (write_at s) (subst (λ w. Closed w (write_at s) (write_at s)) (sym e) tt) in
      record {
        small = v.small;
        prod_capacity = v.prod_capacity;
        cons_capacity = v.cons_capacity;
        storage = length-set s.seg.slots (write_at s) x ∙ v.storage;
        closed = λ i ne.
            subst (Whole (2 ^ k) s.committed i) (sym (elsewhere x i (λ q. ne (sym q))))
              (v.closed i (subst (λ w. Closed w (write_at s) i) (sym e) tt));
        mark_ok = (even, range, ap Slot.generation (here_now x));
        read_ok = read_stored x refl;
        untorn = v.untorn;
      }

  pub scribble-IsValid :
      (msg : List ℕ) (g : ℕ) (y : Slot)
      → s.writing ≡ marked msg g
      → IsValid k buf_size (after_scribble s y)
  scribble-IsValid msg g y e =
      let old = slot_of s (write_at s) in
      let x : Slot = record y { generation = old.generation } in
      let (even, range, odd) = marked_ok msg g e in
      record {
        small = v.small;
        prod_capacity = v.prod_capacity;
        cons_capacity = v.cons_capacity;
        storage = length-set s.seg.slots (write_at s) x ∙ v.storage;
        closed = λ i ne.
            let other : i ≢ write_at s = subst (λ w. Closed w (write_at s) i) e ne in
            subst (Whole (2 ^ k) s.committed i) (sym (elsewhere x i (λ q. other (sym q))))
              (v.closed i ne);
        mark_ok =
            subst (λ w. MarkOk w (get_or (set s.seg.slots (write_at s) x) (write_at s) blank))
              (sym e) (even, range, ap Slot.generation (here_now x) ∙ odd);
        read_ok = read_scribbled x g even odd refl;
        untorn = v.untorn;
      }

  pub commit-IsValid :
      (msg : List ℕ) (g : ℕ) → s.writing ≡ marked msg g → IsValid k buf_size (after_commit s msg g)
  unfolding write_over overwrite
  commit-IsValid msg g e =
      let old = slot_of s (write_at s) in
      let x : Slot = record (overwrite old msg) { generation = (g + 2) % word32 } in
      let (even, range, odd) = marked_ok msg g e in
      let entry : ℕ × List ℕ = (s.prod.write_pos, msg) in
      let mine : Whole (2 ^ k) (s.committed ++ (entry ∷ [])) (write_at s) x = (
        omega (arith, even),
        omega arith,
        inr (
          s.prod.write_pos,
          msg,
          Memᴰ.append_right s.committed (Memᴰ.head refl),
          ap (λ c. slot_index c s.prod.write_pos) (sym v.prod_capacity),
          ap (λ bytes. (length msg, bytes))
              (take-append (length msg) msg (drop (length msg) old.payload) refl),
        ),
      ) in
      record {
        small = v.small;
        prod_capacity = v.prod_capacity;
        cons_capacity = v.cons_capacity;
        storage = length-set s.seg.slots (write_at s) x ∙ v.storage;
        closed = λ i ne. elim (ℕ_discrete (write_at s) i) [
          | yes same ↦
              subst
                (λ j.
                  Whole (2 ^ k) (s.committed ++ (entry ∷ [])) j
                    (get_or (set s.seg.slots (write_at s) x) j blank))
                same
                (subst (Whole (2 ^ k) (s.committed ++ (entry ∷ [])) (write_at s)) (sym (here_now x))
                  mine)
          | no other ↦
              subst (Whole (2 ^ k) (s.committed ++ (entry ∷ [])) i) (sym (elsewhere x i other)) (
                Whole-append (2 ^ k) i s.committed (entry ∷ []) (slot_of s i)
                  (v.closed i (open_other msg g i e (λ q. other (sym q)))))
        ];
        mark_ok = tt;
        read_ok = read_stored x (omega (arith, odd, range));
        untorn = λ few.
            AllUntorn-append (2 ^ k) buf_size s.committed (entry ∷ []) s.accepted (v.untorn few);
      }

  pub publish-IsValid : s.writing ≡ written → IsValid k buf_size (after_publish s)
  unfolding publish
  publish-IsValid e = record {
    small = v.small;
    prod_capacity = v.prod_capacity;
    cons_capacity = v.cons_capacity;
    storage = v.storage;
    closed = λ i ne. v.closed i (subst (λ w. Closed w (write_at s) i) (sym e) tt);
    mark_ok = tt;
    read_ok = v.read_ok;
    untorn = v.untorn;
  }
