-- ===== src/Bus/Lossy/Threads/Reads.antt =====
-- The accesses of the consumer keep what holds (spsc_bus/spsc_bus.hpp: Consumer::try_pop_lossy).
use native.Mathlib.Decide.{ℕ_discrete, dec_lt}
use message_us_cld.Prelude.{
  ℕ, zero, suc, ◌%◌, ◌^◌, ◌≤◌, ◌<◌, ◌≡◌, refl, sym, ap, ◌∙◌, subst, arith, List, [], ◌∷◌, ◌++◌,
  length, take, get_or, word32, sub64, ◌==◌, ltb, if◌then◌else◌, if-cases, length-append,
}
use message_us_cld.Bus.Layout.{slot_index}
use message_us_cld.Bus.Segment.{Slot}
use message_us_cld.Bus.Endpoints.{Consumer, blank}
use message_us_cld.Bus.Lossy.Threads.{
  Writing, idle, written, marked, Reading, waiting, looked, begun, copying, Accepted, System,
  write_at, read_at, slot_of, moved, refreshed, after_look, after_begin, after_size, after_byte,
}
use message_us_cld.Bus.Lossy.Threads.Valid.{
  Whole, Closed, MarkOk, ReadOk, Untorn, AllUntorn, IsValid, read_bytes,
}

length-read_bytes : (n : ℕ) (payload : List ℕ) → length (read_bytes n payload) ≡ n
length-read_bytes zero payload = refl
length-read_bytes (suc n) payload =
    length-append (read_bytes n payload) (get_or payload n 0 ∷ [])
    ∙ omega (arith, length-read_bytes n payload)

-- Up to the end of the payload they are its first bytes.
pub take-suc :
    (n : ℕ) (xs : List ℕ) → n < length xs → take (suc n) xs ≡ take n xs ++ (get_or xs n 0 ∷ [])
take-suc zero [] lt = absurd (omega arith)
take-suc zero (x ∷ xs) lt = refl
take-suc (suc n) [] lt = absurd (omega arith)
take-suc (suc n) (x ∷ xs) lt = ap (λ ys. x ∷ ys) (take-suc n xs (omega arith))

pub read_bytes-take :
    (n : ℕ) (payload : List ℕ) → n ≤ length payload → read_bytes n payload ≡ take n payload
read_bytes-take zero payload le = refl
read_bytes-take (suc n) payload le =
    ap (λ xs. xs ++ (get_or payload n 0 ∷ [])) (read_bytes-take n payload (omega arith))
    ∙ sym (take-suc n payload (omega arith))

pub take-take : (m n : ℕ) (xs : List ℕ) → take m (take n xs) ≡ take (if ltb n m then n else m) xs
take-take zero n xs = ground arith
take-take (suc m) zero xs = ap (λ n. take n xs) {x = 0} (ground arith)
take-take (suc m) (suc n) [] = ground arith
take-take (suc m) (suc n) (x ∷ xs) =
    let rest = take-take m n xs in
    elim (dec_lt n m) [ yes lt ↦ ground (arith, lt, rest) | no ge ↦ ground (arith, ge, rest) ]

pub length-take_le : (n : ℕ) (xs : List ℕ) → length (take n xs) ≤ length xs
length-take_le zero xs = omega arith
length-take_le (suc n) [] = omega arith
length-take_le (suc n) (x ∷ xs) = omega (arith, length-take_le n xs)

pub AllUntorn-snoc :
    (capacity buf_size : ℕ) (committed : List (ℕ × List ℕ)) (accs : List Accepted) (a : Accepted)
    → AllUntorn capacity buf_size committed accs
    → Untorn capacity buf_size committed a
    → AllUntorn capacity buf_size committed (accs ++ (a ∷ []))
AllUntorn-snoc capacity buf_size committed [] a us u = (u, tt)
AllUntorn-snoc capacity buf_size committed (b ∷ accs) a (w, us) u =
    (w, AllUntorn-snoc capacity buf_size committed accs a us u)

module _ {k buf_size : ℕ} {s : System} (v : IsValid k buf_size s) where
  -- A pop that is over, or at a new position, leaves nothing to keep.
  pub over :
      (c : Consumer) (r : Reading) (pos : ℕ)
      → c.capacity ≡ s.cons.capacity
      → ((n : ℕ) (slot : Slot) → ReadOk r n slot)
      → IsValid k buf_size (record (moved s c pos) { reading = r })
  over c r pos same ok = record {
    small = v.small;
    prod_capacity = v.prod_capacity;
    cons_capacity = same ∙ v.cons_capacity;
    storage = v.storage;
    closed = v.closed;
    mark_ok = v.mark_ok;
    read_ok = ok s.changes (get_or s.seg.slots (slot_index c.capacity pos) blank);
    untorn = v.untorn;
  }

  resting :
      (c : Consumer) (r : Reading)
      → c.capacity ≡ s.cons.capacity
      → ((n : ℕ) (slot : Slot) → ReadOk r n slot)
      → IsValid k buf_size (record s { cons = c; reading = r })
  resting c r same ok = record {
    small = v.small;
    prod_capacity = v.prod_capacity;
    cons_capacity = same ∙ v.cons_capacity;
    storage = v.storage;
    closed = v.closed;
    mark_ok = v.mark_ok;
    read_ok = ok s.changes (get_or s.seg.slots (slot_index c.capacity c.read_pos) blank);
    untorn = v.untorn;
  }

  refreshed-capacity : (refreshed s).capacity ≡ s.cons.capacity
  refreshed-capacity = ground arith

  pub look-IsValid : s.reading ≡ waiting → IsValid k buf_size (after_look s)
  look-IsValid e =
      let c = refreshed s in
      if-cases (IsValid k buf_size) (c.read_pos == c.write_cache)
        (λ empty.
          resting c s.reading refreshed-capacity
            (λ n slot. subst (λ r. ReadOk r n slot) (sym e) tt))
        (λ more.
          if-cases (IsValid k buf_size) (ltb c.capacity (sub64 c.write_cache c.read_pos))
            (λ lapped.
              over c waiting (sub64 c.write_cache c.capacity) refreshed-capacity (λ n slot. tt))
            (λ near. resting c looked refreshed-capacity (λ n slot. tt)))

  -- The generation of any slot is a uint32_t.
  generation_range : (w : Writing) → s.writing ≡ w → (i : ℕ) → (slot_of s i).generation < word32
  generation_range idle e i = (v.closed i (subst (λ w. Closed w (write_at s) i) (sym e) tt)).1
  generation_range written e i = (v.closed i (subst (λ w. Closed w (write_at s) i) (sym e) tt)).1
  generation_range (marked msg g) e i = elim (ℕ_discrete i (write_at s)) [
    | yes same ↦
        let ok = subst (λ w. MarkOk w (slot_of s (write_at s))) e v.mark_ok in
        subst (λ j. (slot_of s j).generation < word32) (sym same) (omega (arith, ok.2))
    | no other ↦ (v.closed i (subst (λ w. Closed w (write_at s) i) (sym e) other)).1
  ]

  -- A slot under an even generation is not being written.
  pub even_closed :
      (w : Writing)
      → s.writing ≡ w
      → (i : ℕ) → (slot_of s i).generation % 2 ≡ 0
      → Whole (2 ^ k) s.committed i (slot_of s i)
  even_closed idle e i even = v.closed i (subst (λ w. Closed w (write_at s) i) (sym e) tt)
  even_closed written e i even = v.closed i (subst (λ w. Closed w (write_at s) i) (sym e) tt)
  even_closed (marked msg g) e i even = elim (ℕ_discrete i (write_at s)) [
    | yes same ↦
        let (even_g, range, odd) = subst (λ w. MarkOk w (slot_of s (write_at s))) e v.mark_ok in
        let gen = ap (λ j. (slot_of s j).generation) same in
        absurd (omega (arith, even, even_g, range, odd, gen))
    | no other ↦ v.closed i (subst (λ w. Closed w (write_at s) i) (sym e) other)
  ]

  with_reading :
      (r : Reading) (n : ℕ)
      → ReadOk r n (slot_of s (read_at s))
      → IsValid k buf_size (record s { reading = r; changes = n })
  with_reading r n ok = record {
    small = v.small;
    prod_capacity = v.prod_capacity;
    cons_capacity = v.cons_capacity;
    storage = v.storage;
    closed = v.closed;
    mark_ok = v.mark_ok;
    read_ok = ok;
    untorn = v.untorn;
  }

  pub begin-IsValid : s.reading ≡ looked → IsValid k buf_size (after_begin s)
  begin-IsValid e =
      let gen1 = (slot_of s (read_at s)).generation in
      let range = generation_range s.writing refl (read_at s) in
      if-cases (IsValid k buf_size) (gen1 % 2 == 1) (λ odd. with_reading waiting s.changes tt)
        (λ even. with_reading (begun gen1) 0 (ground (arith, even), range, omega (arith, range)))

  pub size-IsValid : (gen1 : ℕ) → s.reading ≡ begun gen1 → IsValid k buf_size (after_size s gen1)
  size-IsValid gen1 e =
      with_reading (copying gen1 (slot_of s (read_at s)).size []) s.changes
        (subst (λ r. ReadOk r s.changes (slot_of s (read_at s))) e v.read_ok, λ none. (refl, refl))

  pub copying_ok :
      (gen1 size : ℕ) (bytes : List ℕ)
      → s.reading ≡ copying gen1 size bytes
      → ReadOk (copying gen1 size bytes) s.changes (slot_of s (read_at s))
  copying_ok gen1 size bytes e = subst (λ r. ReadOk r s.changes (slot_of s (read_at s))) e v.read_ok

  pub byte-IsValid :
      (gen1 size : ℕ) (bytes : List ℕ)
      → s.reading ≡ copying gen1 size bytes
      → IsValid k buf_size (after_byte s gen1 size bytes)
  byte-IsValid gen1 size bytes e =
      let (snap, same) = copying_ok gen1 size bytes e in
      let payload = (slot_of s (read_at s)).payload in
      let byte = get_or payload (length bytes) 0 in
      with_reading (copying gen1 size (bytes ++ (byte ∷ []))) s.changes (
        snap,
        λ none.
            let (size_eq, bytes_eq) = same none in
            (
              size_eq,
              ap (λ xs. xs ++ (byte ∷ [])) bytes_eq
                  ∙ ap (λ n. read_bytes n payload) {x = suc (length bytes)}
                      {y = length (bytes ++ (byte ∷ []))}
                      (omega (arith, length-append bytes (byte ∷ []))),
            ),
      )
