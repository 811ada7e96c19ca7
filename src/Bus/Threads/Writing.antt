-- ===== src/Bus/Threads/Writing.antt =====
-- Each step of the producer keeps the invariant.
use mathlib.Core.List.{map}
use native.Mathlib.Decide.{dec_lt}
use message_us_cld.Prelude.{
  ℕ, ◌+◌, ◌%◌, ◌≤◌, ◌<◌, ◌≡◌, ◌≢◌, ◌⊎◌, inl, inr, refl, sym, ap, ap₂, ◌∙◌, subst, arith, Bool, true,
  false, List, ◌++◌, length, drop, word, sub64, get_or, set, length-set, get_or-set_self,
  get_or-set_ne, take-append, if◌then◌else◌, ltb,
}
use message_us_cld.Ring.{IsRing, window, window-set, index-lt, index-ne}
use message_us_cld.Bus.Layout.{slot_index}
use message_us_cld.Bus.Layout.Bounds.{slot-IsRing}
use message_us_cld.Bus.Segment.{Slot}
use message_us_cld.Bus.Endpoints.{Producer, blank, reserve, fill, overwrite}
use message_us_cld.Bus.Threads.{
  System, Pushing, Popping, idle, reserved, filled, waiting, ready, copied, after_reserve,
  after_scribble, after_fill,
}
use message_us_cld.Bus.Threads.Valid.{IsValid, message, PushingOk, PoppingOk, clip, clipped}

push_reserved :
    (p : Producer) (slots : List Slot) (msg : List ℕ) (room : Bool)
    → (room ≡ true → (length msg ≤ p.max_msg) × (sub64 p.write_pos p.read_cache < p.capacity))
    → PushingOk p slots (if room then reserved msg else idle)
push_reserved p slots msg true enough = enough refl
push_reserved p slots msg false enough = tt

module _ {k buf_size : ℕ} {s : System} (v : IsValid k buf_size s) where
  open s use {seg, prod, cons}

  abbrev pub held : ℕ
  held = sub64 seg.control.write_pos seg.control.read_pos

  pub ring : IsRing prod.capacity (slot_index prod.capacity)
  ring = subst (λ c. IsRing c (slot_index c)) (sym v.prod_capacity) (slot-IsRing k v.small)

  -- The slot of the writer is the one behind the last message.
  pub behind_last : prod.write_pos ≡ (seg.control.read_pos + held) % word
  behind_last = omega (arith, v.writer, v.write_range, v.read_range)

  -- Writing that slot leaves the messages in the ring alone, while there is room.
  pub in_ring-set :
      (x : Slot)
      → held < prod.capacity
      → window
          (slot_index prod.capacity)
          blank
          (set seg.slots (slot_index prod.capacity prod.write_pos) x)
          seg.control.read_pos
          held
        ≡ window (slot_index prod.capacity) blank seg.slots seg.control.read_pos held
  in_ring-set x room =
      ap
        (λ p.
          window (slot_index prod.capacity) blank (set seg.slots (slot_index prod.capacity p) x)
            seg.control.read_pos held)
        behind_last
      ∙ window-set ring blank seg.slots seg.control.read_pos held held x (omega arith) room

  pub reserve_result :
      (n : ℕ)
      → (room : Bool) × (rc : ℕ) × (reserve seg prod n ≡ (room, record prod { read_cache = rc }))
        × ((rc ≡ prod.read_cache) ⊎ (rc ≡ seg.control.read_pos))
        × (room ≡ true → (n ≤ prod.max_msg) × (sub64 prod.write_pos rc < prod.capacity))
  unfolding reserve
  reserve_result n = elim (dec_lt prod.max_msg n) [
    | yes big ↦ (false, prod.read_cache, ground arith, inl refl, λ e. cc)
    | no fits ↦ elim (dec_lt (sub64 prod.write_pos prod.read_cache) prod.capacity) [
      | yes cached ↦ (true, prod.read_cache, ground arith, inl refl, λ e. (omega arith, cached))
      | no full ↦ (
        ltb (sub64 prod.write_pos seg.control.read_pos) prod.capacity,
        seg.control.read_pos,
        ground arith,
        inr refl,
        λ e. ground arith,
      )
    ]
  ]

  pub reserve-IsValid : (msg : List ℕ) → IsValid k buf_size (after_reserve s msg)
  reserve-IsValid msg =
      let (room, rc, result, which, enough) = reserve_result (length msg) in
      rw result (record {
        small = v.small;
        prod_capacity = v.prod_capacity;
        cons_capacity = v.cons_capacity;
        storage = v.storage;
        writer = v.writer;
        reader = v.reader;
        write_range = v.write_range;
        read_range = v.read_range;
        read_cache_range = ground (arith, v.read_range, v.read_cache_range);
        write_cache_range = v.write_cache_range;
        read_cache_behind = ground (arith, v.read_cache_behind);
        read_cache_fits = ground (arith, v.read_cache_behind, v.read_cache_fits);
        write_cache_behind = v.write_cache_behind;
        push_ok = push_reserved (record prod { read_cache = rc }) seg.slots msg room enough;
        pop_ok = v.pop_ok;
        sent_within = v.sent_within;
        flow = v.flow;
      })

  -- The slot that is being written is not the one that the consumer reads.
  reader_elsewhere :
      (x : Slot)
      → sub64 prod.write_pos prod.read_cache < prod.capacity
      → cons.read_pos ≢ cons.write_cache
      → get_or
          (set seg.slots (slot_index prod.capacity prod.write_pos) x)
          (slot_index cons.capacity cons.read_pos)
          blank
        ≡ get_or seg.slots (slot_index cons.capacity cons.read_pos) blank
  reader_elsewhere x room ne =
      get_or-set_ne seg.slots (slot_index prod.capacity prod.write_pos)
        (slot_index cons.capacity cons.read_pos) x blank
        (λ same. index-ne ring seg.control.read_pos held some_left lt_cap (
          ap (slot_index prod.capacity) (sym behind_last)
          ∙ same
          ∙ ap₂ slot_index (v.cons_capacity ∙ sym v.prod_capacity) v.reader))
    where
      some_left : 0 < held
      some_left = omega (arith, v.reader, v.write_cache_behind, v.write_cache_range, v.read_range)

      lt_cap : held < prod.capacity
      lt_cap = omega (arith, v.writer, v.read_cache_behind)

  scribble-PoppingOk :
      (x : Slot) (q : Popping)
      → sub64 prod.write_pos prod.read_cache < prod.capacity
      → PoppingOk buf_size cons seg.slots q
      → PoppingOk buf_size cons (set seg.slots (slot_index prod.capacity prod.write_pos) x) q
  scribble-PoppingOk x waiting room ok = tt
  scribble-PoppingOk x ready room ok = ok
  scribble-PoppingOk x (copied size bytes) room (ne, same) =
      (ne, same ∙ ap (λ y. clipped buf_size (message y)) (sym (reader_elsewhere x room ne)))

  -- Whatever is in the slot that is being written, as long as the slot is a reserved one.
  scribble-IsValid :
      (x : Slot) (p : Pushing)
      → sub64 prod.write_pos prod.read_cache < prod.capacity
      → PushingOk prod (set seg.slots (slot_index prod.capacity prod.write_pos) x) p
      → IsValid k buf_size (record (after_scribble s x) { pushing = p })
  scribble-IsValid x p room ok = record {
    small = v.small;
    prod_capacity = v.prod_capacity;
    cons_capacity = v.cons_capacity;
    storage = length-set seg.slots (slot_index prod.capacity prod.write_pos) x ∙ v.storage;
    writer = v.writer;
    reader = v.reader;
    write_range = v.write_range;
    read_range = v.read_range;
    read_cache_range = v.read_cache_range;
    write_cache_range = v.write_cache_range;
    read_cache_behind = v.read_cache_behind;
    read_cache_fits = v.read_cache_fits;
    write_cache_behind = v.write_cache_behind;
    push_ok = ok;
    pop_ok = scribble-PoppingOk x s.popping room v.pop_ok;
    sent_within = v.sent_within;
    flow =
        v.flow
        ∙ ap (λ ms. s.received ++ clip buf_size (map message ms))
            (sym (in_ring-set x (omega (arith, v.writer, v.read_cache_behind))));
  }

  pub scribbled-IsValid :
      (msg : List ℕ) (x : Slot) → s.pushing ≡ reserved msg → IsValid k buf_size (after_scribble s x)
  scribbled-IsValid msg x e =
      let ok : PushingOk prod seg.slots (reserved msg) =
        subst (PushingOk prod seg.slots) e v.push_ok in
      scribble-IsValid x s.pushing ok.1 (
        subst (PushingOk prod (set seg.slots (slot_index prod.capacity prod.write_pos) x)) (sym e)
          ok)

  pub fill-IsValid :
      (msg : List ℕ) → s.pushing ≡ reserved msg → IsValid k buf_size (after_fill s msg)
  unfolding fill overwrite
  fill-IsValid msg e =
      let ok : PushingOk prod seg.slots (reserved msg) =
        subst (PushingOk prod seg.slots) e v.push_ok in
      scribble-IsValid whole (filled msg) ok.1 (
        ok.0,
        ok.1,
        ap message (get_or-set_self seg.slots at whole blank in_range)
            ∙ ap (λ bytes. (length msg, bytes))
                (take-append (length msg) msg (drop (length msg) old.payload) refl),
      )
    where
      at : ℕ
      at = slot_index prod.capacity prod.write_pos

      old : Slot
      old = get_or seg.slots at blank

      whole : Slot
      whole = overwrite old msg

      in_range : at < length seg.slots
      in_range = omega (arith, index-lt ring prod.write_pos, v.storage, v.prod_capacity)
