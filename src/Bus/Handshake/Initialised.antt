-- ===== src/Bus/Handshake/Initialised.antt =====
-- What open returns is a segment that create has initialised as a whole.
use message_us_cld.Prelude.{
  ℕ, ◌≡◌, ◌≢◌, refl, sym, ap, ◌∙◌, subst, arith, Option, none, some, if-cases, ltb, ◌==◌, true,
  if◌then◌else◌,
}
use message_us_cld.Bus.Layout.{control_block_size, compute_shm_size}
use message_us_cld.Bus.Segment.{Segment, magic_number, fresh}
use message_us_cld.Bus.Handshake.{
  Creating, begun, truncated, resized, cleared, filled, created, Opening, looking, mapped, opened,
  Object, System, zeros, without_magic, Step, truncates, resizes, clears, scribbles, fills,
  finishes, looks, tests, Reach, here, next,
}

-- No object is there before create, and both calls begin.
abbrev pub no_object : System
no_object = record { object = none; creating = begun; opening = looking }

module _ (session capacity max_msg_size : ℕ) where
  abbrev size_of : ℕ
  size_of = compute_shm_size capacity max_msg_size

  -- What is in the object, by where create stands.
  abbrev Written : Creating → Option Object → Type 0
  Written begun o = o ≡ none
  Written truncated o = o ≡ some (record { size = 0; seg = zeros capacity max_msg_size })
  Written resized o = o ≡ some (record { size = size_of; seg = zeros capacity max_msg_size })
  Written cleared o =
      (seg : Segment) × (o ≡ some (record { size = size_of; seg = without_magic seg }))
  Written filled o =
      (seg : Segment) × (o ≡ some (record { size = size_of; seg = without_magic seg }))
  Written created o =
      o ≡ some (record { size = size_of; seg = fresh session capacity max_msg_size })

  -- A mapping is of the whole size, and open returns only when create has finished.
  abbrev Opened : Creating → Opening → Type 0
  Opened c looking = Unit
  Opened c (mapped size) = (size ≡ size_of) × (c ≢ begun) × (c ≢ truncated)
  Opened c (opened size) = (size ≡ size_of) × (c ≡ created)

  record IsValid (s : System) : Type 0 where
    written : Written s.creating s.object
    open_ok : Opened s.creating s.opening

  Opened-later :
      (c c' : Creating) (op : Opening)
      → c ≢ created
      → (c ≢ begun → c ≢ truncated → (c' ≢ begun) × (c' ≢ truncated))
      → Opened c op
      → Opened c' op
  Opened-later c c' looking open_now on ok = tt
  Opened-later c c' (mapped size) open_now on (same, nb, nt) = (same, (on nb nt).0, (on nb nt).1)
  Opened-later c c' (opened size) open_now on (same, over) = absurd (open_now over)

  whole_size :
      (c : Creating) (x : Object)
      → c ≢ begun
      → c ≢ truncated
      → x.size ≡ size_of
      → Opened c (if ltb x.size control_block_size then looking else mapped x.size)
  whole_size c x nb nt size =
      if-cases (Opened c) (ltb x.size control_block_size) (λ small. tt) (λ large. (size, nb, nt))

  -- A lookup before the object has its size finds nothing to map.
  looked :
      (c : Creating) (o : Option Object)
      → Written c o
      → Opened c (elim o [
        | none ↦ looking
        | some x ↦ (if ltb x.size control_block_size then looking else mapped x.size)
      ])
  looked c none w = tt
  looked begun (some x) w = absurd cc
  looked truncated (some x) w =
      let size : x.size ≡ 0 = ground (arith, w) in
      if-cases (Opened truncated) (ltb x.size control_block_size) (λ small. tt)
        (λ large. absurd (ground (arith, size)))
  looked resized (some x) w = whole_size resized x (λ e. cc) (λ e. cc) (ground (arith, w))
  looked cleared (some x) (seg, w) = whole_size cleared x (λ e. cc) (λ e. cc) (ground (arith, w))
  looked filled (some x) (seg, w) = whole_size filled x (λ e. cc) (λ e. cc) (ground (arith, w))
  looked created (some x) w = whole_size created x (λ e. cc) (λ e. cc) (ground (arith, w))

  -- The magic number stands in the object only when create has finished.
  finished :
      (c : Creating) (o : Object)
      → Written c (some o)
      → c ≢ begun
      → (o.seg.control.magic == magic_number) ≡ true
      → c ≡ created
  finished begun o w nb m = absurd (nb refl)
  finished truncated o w nb m = absurd (ground (arith, w, m))
  finished resized o w nb m = absurd (ground (arith, w, m))
  finished cleared o (seg, w) nb m = absurd (ground (arith, w, m))
  finished filled o (seg, w) nb m = absurd (ground (arith, w, m))
  finished created o w nb m = refl

  Step-IsValid : {s t : System} → IsValid s → Step session capacity max_msg_size s t → IsValid t
  Step-IsValid {s} v (truncates e eq) = subst IsValid (sym eq) (record {
    written = refl;
    open_ok =
        Opened-later begun truncated s.opening (λ x. cc) (λ nb nt. absurd (nb refl))
          (subst (λ c. Opened c s.opening) e v.open_ok);
  })
  Step-IsValid {s} v (resizes e eq) = subst IsValid (sym eq) (record {
    written = refl;
    open_ok =
        Opened-later truncated resized s.opening (λ x. cc) (λ nb nt. absurd (nt refl))
          (subst (λ c. Opened c s.opening) e v.open_ok);
  })
  Step-IsValid {s} v (clears e eq) = subst IsValid (sym eq) (record {
    written = (zeros capacity max_msg_size, refl);
    open_ok =
        Opened-later resized cleared s.opening (λ x. cc) (λ nb nt. (λ x. cc, λ x. cc))
          (subst (λ c. Opened c s.opening) e v.open_ok);
  })
  Step-IsValid {s} v (scribbles seg e eq) = subst IsValid (sym eq) (record {
    written =
        subst (λ c. Written c (some (record { size = size_of; seg = without_magic seg }))) (sym e)
          (seg, refl);
    open_ok = v.open_ok;
  })
  Step-IsValid {s} v (fills e eq) = subst IsValid (sym eq) (record {
    written = (fresh session capacity max_msg_size, refl);
    open_ok =
        Opened-later cleared filled s.opening (λ x. cc) (λ nb nt. (λ x. cc, λ x. cc))
          (subst (λ c. Opened c s.opening) e v.open_ok);
  })
  Step-IsValid {s} v (finishes e eq) = subst IsValid (sym eq) (record {
    written = refl;
    open_ok =
        Opened-later filled created s.opening (λ x. cc) (λ nb nt. (λ x. cc, λ x. cc))
          (subst (λ c. Opened c s.opening) e v.open_ok);
  })
  Step-IsValid {s} v (looks e eq) =
      subst IsValid (sym eq)
        (record { written = v.written; open_ok = looked s.creating s.object v.written })
  Step-IsValid {s} v (tests o size e there eq) =
      let ok : Opened s.creating (mapped size) = subst (Opened s.creating) e v.open_ok in
      subst IsValid (sym eq) (record {
        written = v.written;
        open_ok =
            if-cases (Opened s.creating) (o.seg.control.magic == magic_number)
              (λ there_now. (
                ok.0,
                finished s.creating o (subst (Written s.creating) there v.written) ok.1 there_now,
              ))
              (λ not_yet. ok);
      })

  Reach-IsValid : {s t : System} → IsValid s → Reach session capacity max_msg_size s t → IsValid t
  Reach-IsValid v here = v
  Reach-IsValid v (next r step) = Step-IsValid (Reach-IsValid v r) step

  -- With no object under the name at first, in any interleaving of create and open: when open has
  -- returned, create is through, what open has mapped is the whole segment, and the segment is as
  -- create leaves it.
  pub opened_whole :
      {t : System} (size : ℕ)
      → Reach session capacity max_msg_size no_object t
      → t.opening ≡ opened size
      → (size ≡ compute_shm_size capacity max_msg_size)
        × (t.creating ≡ created)
        × (t.object ≡ some (record { size = size; seg = fresh session capacity max_msg_size }))
  opened_whole {t} size r e =
      let v = Reach-IsValid (record { written = refl; open_ok = tt }) r in
      let ok : Opened t.creating (opened size) = subst (Opened t.creating) e v.open_ok in
      let object = subst (λ c. Written c t.object) ok.1 v.written in
      (
        ok.0,
        ok.1,
        object
            ∙ ap (λ n. some (record { size = n; seg = fresh session capacity max_msg_size }))
                (sym ok.0),
      )
