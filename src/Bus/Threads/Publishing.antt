-- ===== src/Bus/Threads/Publishing.antt =====
-- The last step of a push keeps the invariant.
use mathlib.Core.List.{map, map-append}
use native.Mathlib.Nat.{pow-le-pow_right}
use message_us_cld.Prelude.{
  ℕ, suc, ◌+◌, ◌%◌, ◌^◌, ◌≤◌, ◌<◌, ◌≡◌, refl, sym, ap, ◌∙◌, subst, arith, List, [], ◌∷◌, ◌++◌,
  length, word, add64, sub64, get_or, append_assoc,
}
use message_us_cld.Ring.{window, window_last}
use message_us_cld.Bus.Layout.{slot_index}
use message_us_cld.Bus.Endpoints.{blank, publish}
use message_us_cld.Bus.Threads.{System, filled, after_publish}
use message_us_cld.Bus.Threads.Valid.{IsValid, message, in_ring, PushingOk, Within, clip, clipped}
use message_us_cld.Bus.Threads.Writing.{ring, behind_last, held}

Within-append :
    (n : ℕ) (xs : List (ℕ × List ℕ)) (x : List ℕ)
    → Within n xs
    → length x ≤ n
    → Within n (xs ++ ((length x, x) ∷ []))
Within-append n [] x w le = (refl, le, tt)
Within-append n (y ∷ ys) x (size, fits, w) le = (size, fits, Within-append n ys x w le)

module _ {k buf_size : ℕ} {s : System} (v : IsValid k buf_size s) where
  open s use {seg, prod, cons}

  -- The filled slot becomes the last message of the ring.
  pub in_ring-publish :
      (msg : List ℕ)
      → sub64 prod.write_pos prod.read_cache < prod.capacity
      → message (get_or seg.slots (slot_index prod.capacity prod.write_pos) blank)
        ≡ (length msg, msg)
      → in_ring (after_publish s msg) ≡ in_ring s ++ ((length msg, msg) ∷ [])
  unfolding publish
  in_ring-publish msg room full =
      ap
        (λ n.
          map message (window (slot_index prod.capacity) blank seg.slots seg.control.read_pos n))
        {y = suc (held v)} grown
      ∙ ap (map message) (window_last (ring v) blank seg.slots seg.control.read_pos (held v))
      ∙ map-append message
          (window (slot_index prod.capacity) blank seg.slots seg.control.read_pos (held v))
          (get_or seg.slots (slot_index prod.capacity ((seg.control.read_pos + (held v)) % word))
              blank
            ∷ [])
      ∙ ap (λ m. in_ring s ++ (m ∷ []))
          (ap (λ p. message (get_or seg.slots (slot_index prod.capacity p) blank))
              (sym (behind_last v))
            ∙ full)
    where
      cap_le : prod.capacity ≤ 2 ^ 31
      cap_le = omega (arith, v.prod_capacity, pow-le-pow_right {n = 2} (omega arith) v.small)

      grown : sub64 (add64 prod.write_pos 1) seg.control.read_pos ≡ suc (held v)
      grown = omega (arith, cap_le, v.writer, v.read_cache_behind, v.write_range, v.read_range)

  pub publish-IsValid :
      (msg : List ℕ) → s.pushing ≡ filled msg → IsValid k buf_size (after_publish s msg)
  unfolding publish
  publish-IsValid msg e = record {
    small = v.small;
    prod_capacity = v.prod_capacity;
    cons_capacity = v.cons_capacity;
    storage = v.storage;
    writer = refl;
    reader = v.reader;
    write_range = omega arith;
    read_range = v.read_range;
    read_cache_range = v.read_cache_range;
    write_cache_range = v.write_cache_range;
    read_cache_behind = omega (arith, facts);
    read_cache_fits = omega (arith, facts);
    write_cache_behind = omega (arith, facts);
    push_ok = tt;
    pop_ok = v.pop_ok;
    sent_within = Within-append prod.max_msg s.sent msg v.sent_within ok.0;
    flow =
        map-append (clipped buf_size) s.sent ((length msg, msg) ∷ [])
        ∙ ap (λ ms. ms ++ (clipped buf_size (length msg, msg) ∷ [])) v.flow
        ∙ append_assoc s.received (clip buf_size (in_ring s))
            (clipped buf_size (length msg, msg) ∷ [])
        ∙ ap (λ ms. s.received ++ ms)
            (sym (
              ap (clip buf_size) (in_ring-publish msg ok.1 ok.2)
              ∙ map-append (clipped buf_size) (in_ring s) ((length msg, msg) ∷ [])));
  }
    where
      ok : PushingOk prod seg.slots (filled msg)
      ok = subst (PushingOk prod seg.slots) e v.push_ok

      cap_le : prod.capacity ≤ 2 ^ 31
      cap_le = omega (arith, v.prod_capacity, pow-le-pow_right {n = 2} (omega arith) v.small)

      facts :
          (prod.capacity ≤ 2 ^ 31)
          × (prod.write_pos ≡ seg.control.write_pos)
          × (sub64 prod.write_pos prod.read_cache < prod.capacity)
          × (seg.control.write_pos < word)
          × (seg.control.read_pos < word)
          × (prod.read_cache < word)
          × (cons.write_cache < word)
          × (sub64 seg.control.write_pos seg.control.read_pos
              ≤ sub64 seg.control.write_pos prod.read_cache)
          × (sub64 cons.write_cache seg.control.read_pos
              ≤ sub64 seg.control.write_pos seg.control.read_pos)
      facts = (
        cap_le, v.writer, ok.1, v.write_range, v.read_range, v.read_cache_range,
        v.write_cache_range, v.read_cache_behind, v.write_cache_behind,
      )
