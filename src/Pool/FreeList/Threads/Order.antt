-- ===== src/Pool/FreeList/Threads/Order.antt =====
-- A free list under one pushing and one popping thread is a bounded FIFO at any moment.
use message_us_cld.Prelude.{
  ℕ, suc, ◌+◌, ◌%◌, ◌≤◌, ◌<◌, ◌≡◌, ◌≢◌, refl, sym, ap, ◌∙◌, subst, arith, List, [], ◌∷◌, ◌++◌,
  length, word, add64, sub64, bit_and, get_or, set, length-set, get_or-set_self, get_or-set_ne,
  append_assoc, append-nil, if-cases, leb, ◌==◌,
}
use message_us_cld.Ring.{window, window-set, window_last, index-lt, index-ne}
use message_us_cld.Pool.FreeList.{FreeList}
use message_us_cld.Pool.FreeList.Valid
use message_us_cld.Pool.FreeList.Valid.{contents, cap-le}
use message_us_cld.Pool.FreeList.Refine.{ring, contents-first, length-contents}
use message_us_cld.Pool.FreeList.Threads.{
  System, Pushing, idle, reserved, filled, Popping, waiting, ready, holding, after_room, after_fill,
  after_publish, after_check, after_load, after_release, Step, looks, fills, publishes, checks,
  loads, releases, Reach, here, next, at_rest,
}
use message_us_cld.Pool.FreeList.Threads.Valid.{IsValid, PushingOk, PoppingOk}

module _ {k : ℕ} {start : List ℕ} {s : System} (v : IsValid k start s) where
  open s use {list}

  abbrev held : ℕ
  held = sub64 list.wp list.rp

  -- The slot of the push is the one behind the last address.
  behind_last : list.wp ≡ (list.rp + held) % word
  behind_last = omega (arith, v.list_valid)

  room-IsValid : (ptr : ℕ) → IsValid k start (after_room s ptr)
  room-IsValid ptr = record {
    list_valid = v.list_valid;
    pop_ok = v.pop_ok;
    flow = v.flow;
    push_ok = if-cases (PushingOk list) (leb list.cap held) (λ full. tt) (λ room. ground arith);
  }

  abbrev index : ℕ → ℕ
  index p = bit_and p list.mask

  abbrev written : ℕ → List ℕ
  written ptr = set list.slots (index list.wp) ptr

  contents-fill : (ptr : ℕ) → held < list.cap → contents (after_fill s ptr).list ≡ contents list
  contents-fill ptr room =
      ap (λ p. window index 0 (set list.slots (index p) ptr) list.rp held) behind_last
      ∙ window-set (ring v.list_valid) 0 list.slots list.rp held held ptr (omega arith) room

  -- The slot that is written is not the one that a pop reads.
  popped_elsewhere :
      (ptr : ℕ)
      → held < list.cap
      → list.rp ≢ list.wp
      → get_or (written ptr) (index list.rp) 0 ≡ get_or list.slots (index list.rp) 0
  popped_elsewhere ptr room ne =
      get_or-set_ne list.slots (index list.wp) (index list.rp) ptr 0 (λ same.
        index-ne (ring v.list_valid) list.rp held (omega (arith, v.list_valid)) room
          (ap index (sym behind_last) ∙ same))

  fill-PoppingOk :
      (ptr : ℕ) (q : Popping)
      → held < list.cap
      → PoppingOk list q
      → PoppingOk (after_fill s ptr).list q
  fill-PoppingOk ptr waiting room ok = tt
  fill-PoppingOk ptr ready room ok = ok
  fill-PoppingOk ptr (holding p) room (ne, same) = (ne, same ∙ sym (popped_elsewhere ptr room ne))

  fill-IsValid : (ptr : ℕ) → s.pushing ≡ reserved ptr → IsValid k start (after_fill s ptr)
  fill-IsValid ptr e =
      let room : PushingOk list (reserved ptr) = subst (PushingOk list) e v.push_ok in
      record {
        list_valid = record {
          small = v.list_valid.small;
          capacity = v.list_valid.capacity;
          masked = v.list_valid.masked;
          storage = length-set list.slots (index list.wp) ptr ∙ v.list_valid.storage;
          reading = v.list_valid.reading;
          writing = v.list_valid.writing;
          fits = v.list_valid.fits;
        };
        push_ok = (
          room,
          get_or-set_self list.slots (index list.wp) ptr 0
              (omega (arith, index-lt (ring v.list_valid) list.wp, v.list_valid.storage)),
        );
        pop_ok = fill-PoppingOk ptr s.popping room v.pop_ok;
        flow = v.flow ∙ ap (λ xs. s.popped ++ xs) (sym (contents-fill ptr room));
      }

  contents-publish :
      (ptr : ℕ)
      → held < list.cap
      → get_or list.slots (index list.wp) 0 ≡ ptr
      → contents (after_publish s ptr).list ≡ contents list ++ (ptr ∷ [])
  contents-publish ptr room full =
      ap (window index 0 list.slots list.rp) {x = sub64 (add64 list.wp 1) list.rp} {y = suc held}
        (omega (arith, v.list_valid, cap-le v.list_valid))
      ∙ window_last (ring v.list_valid) 0 list.slots list.rp held
      ∙ ap (λ x. contents list ++ (x ∷ []))
          (ap (λ p. get_or list.slots (index p) 0) (sym behind_last) ∙ full)

  publish-PoppingOk :
      (ptr : ℕ) (q : Popping)
      → held < list.cap
      → PoppingOk list q
      → PoppingOk (after_publish s ptr).list q
  publish-PoppingOk ptr waiting room ok = tt
  publish-PoppingOk ptr ready room ok = λ same. omega (arith, v.list_valid, cap-le v.list_valid)
  publish-PoppingOk ptr (holding p) room (ne, same) =
      (λ same. omega (arith, v.list_valid, cap-le v.list_valid), same)

  publish-IsValid : (ptr : ℕ) → s.pushing ≡ filled ptr → IsValid k start (after_publish s ptr)
  publish-IsValid ptr e =
      let ok : PushingOk list (filled ptr) = subst (PushingOk list) e v.push_ok in
      record {
        list_valid = record {
          small = v.list_valid.small;
          capacity = v.list_valid.capacity;
          masked = v.list_valid.masked;
          storage = v.list_valid.storage;
          reading = v.list_valid.reading;
          writing = omega arith;
          fits = omega (arith, v.list_valid, cap-le v.list_valid, ok.0);
        };
        push_ok = tt;
        pop_ok = publish-PoppingOk ptr s.popping ok.0 v.pop_ok;
        flow =
            sym (append_assoc start s.pushed (ptr ∷ []))
            ∙ ap (λ xs. xs ++ (ptr ∷ [])) v.flow
            ∙ append_assoc s.popped (contents list) (ptr ∷ [])
            ∙ ap (λ xs. s.popped ++ xs) (sym (contents-publish ptr ok.0 ok.1));
      }

  check-IsValid : IsValid k start (after_check s)
  check-IsValid = record {
    list_valid = v.list_valid;
    push_ok = v.push_ok;
    flow = v.flow;
    pop_ok =
        if-cases (PoppingOk list) (list.rp == list.wp) (λ none_left. tt)
          (λ some_left same. ground arith);
  }

  load-IsValid : s.popping ≡ ready → IsValid k start (after_load s)
  load-IsValid e =
      let ne : PoppingOk list ready = subst (PoppingOk list) e v.pop_ok in
      record { list_valid = v.list_valid; push_ok = v.push_ok; pop_ok = (ne, refl); flow = v.flow }

  release-PushingOk :
      (p : ℕ) (q : Pushing)
      → list.rp ≢ list.wp
      → PushingOk list q
      → PushingOk (after_release s p).list q
  release-PushingOk p idle ne ok = tt
  release-PushingOk p (reserved ptr) ne ok = omega (arith, v.list_valid)
  release-PushingOk p (filled ptr) ne (room, full) = (omega (arith, v.list_valid), full)

  release-IsValid : (p : ℕ) → s.popping ≡ holding p → IsValid k start (after_release s p)
  release-IsValid p e =
      let ok : PoppingOk list (holding p) = subst (PoppingOk list) e v.pop_ok in
      record {
        list_valid = record {
          small = v.list_valid.small;
          capacity = v.list_valid.capacity;
          masked = v.list_valid.masked;
          storage = v.list_valid.storage;
          reading = omega arith;
          writing = v.list_valid.writing;
          fits = omega (arith, v.list_valid, ok.0);
        };
        push_ok = release-PushingOk p s.pushing ok.0 v.push_ok;
        pop_ok = tt;
        flow =
            v.flow
            ∙ ap (λ xs. s.popped ++ xs)
                (contents-first v.list_valid ok.0
                  ∙ ap (λ x. x ∷ contents (after_release s p).list) (sym ok.1))
            ∙ sym (append_assoc s.popped (p ∷ []) (contents (after_release s p).list));
      }

  Step-IsValid : {t : System} → Step s t → IsValid k start t
  Step-IsValid (looks ptr e eq) = subst (IsValid k start) (sym eq) (room-IsValid ptr)
  Step-IsValid (fills ptr e eq) = subst (IsValid k start) (sym eq) (fill-IsValid ptr e)
  Step-IsValid (publishes ptr e eq) = subst (IsValid k start) (sym eq) (publish-IsValid ptr e)
  Step-IsValid (checks e eq) = subst (IsValid k start) (sym eq) check-IsValid
  Step-IsValid (loads e eq) = subst (IsValid k start) (sym eq) (load-IsValid e)
  Step-IsValid (releases p e eq) = subst (IsValid k start) (sym eq) (release-IsValid p e)

Reach-IsValid :
    {k : ℕ} {start : List ℕ} {s t : System} → IsValid k start s → Reach s t → IsValid k start t
Reach-IsValid v here = v
Reach-IsValid v (next r step) = Step-IsValid (Reach-IsValid v r) step

-- From a valid list with no call under way, whatever the order in which the accesses of one pushing
-- and one popping thread follow: at any moment the addresses that the list held and those that
-- were pushed are, in this order, those that were popped and those in the list, which are no
-- more than its capacity.
pub Reach-fifo :
    {k : ℕ} {f : FreeList} {t : System}
    → Valid.IsValid k f
    → Reach (at_rest f) t
    → (contents f ++ t.pushed ≡ t.popped ++ contents t.list)
      × (length (contents t.list) ≤ t.list.cap)
Reach-fifo {k} {f} {t} valid r =
    let v =
      Reach-IsValid
        (record { list_valid = valid; push_ok = tt; pop_ok = tt; flow = append-nil (contents f) })
        r in
    (v.flow, omega (arith, length-contents t.list, v.list_valid))
