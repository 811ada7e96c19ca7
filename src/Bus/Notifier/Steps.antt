-- ===== src/Bus/Notifier/Steps.antt =====
-- What the steps of a push and of a pop change of what a Notifier goes by: the number of messages in
-- the ring, and that no message is empty.
use message_us_cld.Prelude.{
  ℕ, ◌<◌, ◌≡◌, refl, sym, ap, ◌∙◌, subst, arith, Bool, true, false, List, [], ◌∷◌, ◌++◌, length,
  sub64, if◌then◌else◌,
}
use message_us_cld.Bus.Segment.{Segment}
use message_us_cld.Bus.Endpoints.{Consumer, reserve, arrived, release, fill}
use message_us_cld.Bus.Threads
use message_us_cld.Bus.Threads.{
  System, Pushing, Popping, idle, reserved, filled, waiting, ready, copied, reserves, scribbles,
  fills, publishes, checks, copies, releases, after_check,
}
use message_us_cld.Bus.Threads.Valid
use message_us_cld.Bus.Threads.Valid.{message, in_ring, clip, clipped, PoppingOk}
use message_us_cld.Bus.Threads.Reading.{in_ring-cons}
use message_us_cld.Bus.Notifier.{Producing, Draining, published, ended, found_nothing}

-- No message is empty.
abbrev pub Filled : List (ℕ × List ℕ) → Type 0
Filled [] = Unit
Filled (m ∷ ms) = (0 < m.0) × Filled ms

Filled-append_left : (ms ns : List (ℕ × List ℕ)) → Filled (ms ++ ns) → Filled ms
Filled-append_left [] ns f = tt
Filled-append_left (m ∷ ms) ns (fm, f) = (fm, Filled-append_left ms ns f)

Filled-append_right : (ms ns : List (ℕ × List ℕ)) → Filled (ms ++ ns) → Filled ns
Filled-append_right [] ns f = f
Filled-append_right (m ∷ ms) ns (fm, f) = Filled-append_right ms ns f

Filled-clip : (n : ℕ) (ms : List (ℕ × List ℕ)) → Filled ms → Filled (clip n ms)
Filled-clip n [] f = tt
Filled-clip n (m ∷ ms) (fm, f) = (fm, Filled-clip n ms f)

abbrev pub held : System → ℕ
held b = sub64 b.seg.control.write_pos b.seg.control.read_pos

arrived_none :
    (seg : Segment) (c : Consumer) → (arrived seg c).0 ≡ false → c.read_pos ≡ seg.control.write_pos
unfolding arrived
arrived_none seg c e = ground arith

ready_when : (left : Bool) → found_nothing (if left then ready else waiting) ≡ true → left ≡ false
ready_when true e = sym e
ready_when false e = refl

checked_none :
    {k buf_size : ℕ} {b : System}
    → Valid.IsValid k buf_size b
    → found_nothing (after_check b).popping ≡ true
    → held b ≡ 0
checked_none {b = b} v e =
    let same = arrived_none b.seg b.cons (ready_when (arrived b.seg b.cons).0 e) in
    omega (arith, v.reader, v.read_range)

-- A message that a pop has copied is not empty.
copied-Filled :
    {k buf_size : ℕ} {b : System} (size : ℕ) (bytes : List ℕ)
    → Valid.IsValid k buf_size b
    → Filled b.sent
    → b.popping ≡ copied size bytes
    → 0 < size
copied-Filled {buf_size = n} {b} size bytes v f e =
    let ok : PoppingOk n b.cons b.seg.slots (copied size bytes) =
      subst (PoppingOk n b.cons b.seg.slots) e v.pop_ok in
    let ring : Filled (clip n (in_ring b)) =
      Filled-append_right b.received (clip n (in_ring b))
        (subst Filled v.flow (Filled-clip n b.sent f)) in
    subst (λ m. 0 < m.0) (sym ok.1) (subst (λ ms. Filled (clip n ms)) (in_ring-cons v ok.0) ring).0

-- A step of a push changes neither position until its last, which leaves the notification to do.
pub push-held :
    {buf_size : ℕ} {s b : System} (step : Threads.Step buf_size s b)
    → Producing step
    → published step ≡ false
    → held b ≡ held s
unfolding fill reserve
push-held (reserves msg e eq) p o = ap held eq
push-held (scribbles msg x e eq) p o = ap held eq
push-held (fills msg e eq) p o = ap held eq
push-held (publishes msg e eq) p o = absurd cc
push-held (checks e eq) p o = absurd p
push-held (copies e eq) p o = absurd p
push-held (releases size bytes e eq) p o = absurd p

-- What was sent before is still there.
pub push-Filled :
    {buf_size : ℕ} {s b : System} (step : Threads.Step buf_size s b)
    → Producing step
    → Filled b.sent
    → Filled s.sent
push-Filled (reserves msg e eq) p sent = subst (λ b. Filled b.sent) eq sent
push-Filled (scribbles msg x e eq) p sent = subst (λ b. Filled b.sent) eq sent
push-Filled (fills msg e eq) p sent = subst (λ b. Filled b.sent) eq sent
push-Filled {s = s} (publishes msg e eq) p sent =
    Filled-append_left s.sent ((length msg, msg) ∷ []) (subst (λ b. Filled b.sent) eq sent)
push-Filled (checks e eq) p sent = absurd p
push-Filled (copies e eq) p sent = absurd p
push-Filled (releases size bytes e eq) p sent = absurd p

-- A step of a pop leaves alone what the producer has done.
pub pop-unsent :
    {buf_size : ℕ} {s b : System} (step : Threads.Step buf_size s b)
    → Draining step
    → b.sent ≡ s.sent
unfolding arrived release
pop-unsent (reserves msg e eq) p = absurd p
pop-unsent (scribbles msg x e eq) p = absurd p
pop-unsent (fills msg e eq) p = absurd p
pop-unsent (publishes msg e eq) p = absurd p
pop-unsent (checks e eq) p = ap (λ b. b.sent) eq
pop-unsent (copies e eq) p = ap (λ b. b.sent) eq
pop-unsent (releases size bytes e eq) p = ap (λ b. b.sent) eq

-- A pop that returns 0 has found nothing in the ring.
pub pop-held :
    {k buf_size : ℕ} {s b : System} (step : Threads.Step buf_size s b)
    → Valid.IsValid k buf_size s
    → Filled s.sent
    → Draining step
    → ended step ≡ true
    → held b ≡ 0
pop-held (reserves msg e eq) v f p o = absurd p
pop-held (scribbles msg x e eq) v f p o = absurd p
pop-held (fills msg e eq) v f p o = absurd p
pop-held (publishes msg e eq) v f p o = absurd p
pop-held (checks e eq) v f p o =
    ap held eq ∙ checked_none v (sym (ap (λ b. found_nothing b.popping) eq) ∙ o)
pop-held (copies e eq) v f p o = absurd cc
pop-held (releases size bytes e eq) v f p o =
    absurd (ground (arith, copied-Filled size bytes v f e))
