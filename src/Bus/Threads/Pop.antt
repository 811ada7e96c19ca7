-- ===== src/Bus/Threads/Pop.antt =====
-- A whole call of `try_pop`, with nothing in between, takes the oldest message from the queue.
use message_us_cld.Prelude.{
  ℕ, ◌≡◌, refl, sym, ap, ◌∙◌, arith, List, [], ◌∷◌, ◌++◌, Bool, true, false, ltb, length, drop,
  if◌then◌else◌, get_or,
}
use message_us_cld.Bus.Endpoints.{Consumer, arrived, copy_out, try_pop}
use message_us_cld.Bus.Threads.{
  System, waiting, ready, copied, after_copy, Reach, here, next, checks, copies, releases,
}
use message_us_cld.Bus.Threads.Order.{Reach-IsValid}
use message_us_cld.Bus.Threads.Push.{length-in_ring}
use message_us_cld.Bus.Threads.Valid.{IsValid, PoppingOk, in_ring, clip}
use message_us_cld.Bus.Threads.Reading.{copy-IsValid, in_ring-cons, in_ring-release, arrived_result}

-- The system after a whole call of `try_pop`, when it takes a message or not.
abbrev pub popped : ℕ → System → System
popped buf_size s =
    let (size, bytes, c, g) = try_pop s.seg s.cons buf_size in
    record s {
      seg = g;
      cons = c;
      popping = waiting;
      received =
          if (arrived s.seg s.cons).0 then s.received ++ ((size, bytes) ∷ []) else s.received;
    }

arrived-exact :
    {k buf_size : ℕ} {s : System}
    → IsValid k buf_size s
    → (arrived s.seg s.cons).0 ≡ ltb 0 (length (in_ring s))
unfolding arrived
arrived-exact {s = s} v = ground (
  arith,
  length-in_ring v,
  v.write_cache_behind,
  v.reader,
  v.write_range,
  v.read_range,
  v.write_cache_range,
)

-- The result of `try_pop` and the messages left in the ring.
abbrev Popped : ℕ → System → Type 0
Popped buf_size s =
    let (size, bytes, _, _) = try_pop s.seg s.cons buf_size in
    ((size, bytes) ≡ get_or (clip buf_size (in_ring s)) 0 (0, []))
    × (in_ring (popped buf_size s) ≡ drop 1 (in_ring s))

popped_run :
    {buf_size : ℕ} {s : System} (some_left : Bool) (c : Consumer)
    → s.popping ≡ waiting
    → arrived s.seg s.cons ≡ (some_left, c)
    → Reach buf_size s (popped buf_size s)
unfolding try_pop
popped_run {buf_size} {s} true c e eq =
    rw (eq, try_pop)
      (next {t = after_copy buf_size seen} (next saw (copies refl refl))
        (releases (copy_out s.seg c buf_size).0 (copy_out s.seg c buf_size).1 refl refl))
  where
    seen : System
    seen = record s { cons = c; popping = ready }

    saw : Reach buf_size s seen
    saw = next here (checks e (rw eq refl))
popped_run {s = s} false c e eq = rw (eq, try_pop) (next here (checks e (rw eq refl)))

nil_of_length : (xs : List (ℕ × List ℕ)) → length xs ≡ 0 → [] ≡ xs
nil_of_length [] e = refl
nil_of_length (x ∷ xs) e = absurd (omega arith)

pop_effect :
    {k buf_size : ℕ} {s : System}
    → IsValid k buf_size s
    → (some_left : Bool) (wc : ℕ) → s.popping ≡ waiting
    → arrived s.seg s.cons ≡ (some_left, record (s.cons) { write_cache = wc })
    → Popped buf_size s
unfolding try_pop
pop_effect {k} {buf_size} {s} v true wc e eq =
    rw (eq, try_pop)
      (
        ok.1 ∙ ap (λ ms. get_or (clip buf_size ms) 0 (0, [])) (sym (in_ring-cons w ok.0)),
        sym (in_ring-release w 0 [] ok.0) ∙ ap (drop 1) (sym (in_ring-cons w ok.0)),
      )
  where
    seen : System
    seen = record s { cons = record (s.cons) { write_cache = wc }; popping = ready }

    w : IsValid k buf_size seen
    w = Reach-IsValid v (next here (checks e (rw eq refl)))

    ok :
        PoppingOk buf_size seen.cons s.seg.slots
          (copied (copy_out s.seg seen.cons buf_size).0 (copy_out s.seg seen.cons buf_size).1)
    ok = (copy-IsValid w refl).pop_ok
pop_effect {k} {buf_size} {s} v false wc e eq =
    rw (eq, try_pop)
      (
        ap (λ ms. get_or (clip buf_size ms) 0 (0, [])) none_left,
        sym none_left ∙ ap (drop 1) none_left,
      )
  where
    none_left : [] ≡ in_ring s
    none_left = nil_of_length (in_ring s) (
        let exact : false ≡ ltb 0 (length (in_ring s)) = sym (ap (λ q. q.0) eq) ∙ arrived-exact v in
        ground (arith, exact))

-- In a valid state between two calls of the consumer, `try_pop` returns the size and, as far as the
-- buffer goes, the bytes of the oldest message in the ring, and 0 and no bytes when there is none. Of
-- the messages in the ring that one is gone and no other. The state is valid again.
pub try_pop_lem :
    {k buf_size : ℕ} {s : System}
    → IsValid k buf_size s
    → s.popping ≡ waiting
    → ((((try_pop s.seg s.cons buf_size).0, (try_pop s.seg s.cons buf_size).1)
          ≡ get_or (clip buf_size (in_ring s)) 0 (0, []))
        × (in_ring (popped buf_size s) ≡ drop 1 (in_ring s)))
      × IsValid k buf_size (popped buf_size s)
try_pop_lem {s = s} v e =
    let (some_left, wc, result, _, _) = arrived_result v in
    (
      pop_effect v some_left wc e result,
      Reach-IsValid v (popped_run some_left (record (s.cons) { write_cache = wc }) e result),
    )
