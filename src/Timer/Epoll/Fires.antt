-- ===== src/Timer/Epoll/Fires.antt =====
-- Which timers EpollTimer::drain_expired fires (timer/src/epoll_timer.cpp).
use native.Mathlib.Decide.{dec_lt}
use message_us_cld.Prelude.{
  ℕ, zero, suc, ◌+◌, ◌<◌, ◌≡◌, ◌≢◌, refl, sym, ap, ap₂, ◌∙◌, subst, arith, List, [], ◌∷◌, some, leb,
  Bool, false, ◌==◌, ◌&&◌, if◌then◌else◌, inl, inr, Bool-cases, Option-cases,
}
use message_us_cld.Timer.Epoll.{
  Entry, EpollTimer, push, find, erase, assign, is_live, next_expiry, fire_top, round, drain_loop,
}
use message_us_cld.Timer.Epoll.Queue.{AtLeast, Sorted, push-Sorted, find-erase_ne, find-assign_ne}
use message_us_cld.Timer.Epoll.Watched.{Ordered}
use message_us_cld.Timer.Epoll.Drain.{Behaves, stop_late, drain_loop-Drained}
use message_us_cld.Timer.Epoll.Cadence.{next_expiry-later}

-- No entry has the id; all ids are different.
abbrev pub Absent : ℕ → List Entry → Type 0
Absent id [] = Unit {0}
Absent id (e ∷ es) = (e.id ≢ id) × Absent id es

abbrev pub Distinct : List Entry → Type 0
Distinct [] = Unit {0}
Distinct (e ∷ es) = Absent e.id es × Distinct es

-- The map has an entry for the timer of `e`, and that one is due when `e` is.
abbrev pub is_pending : List (ℕ × Entry) → Entry → Bool
is_pending [] e = false
is_pending ((id, held) ∷ active) e =
    let rest = is_pending active e in if id == e.id then held.expiry_ns == e.expiry_ns else rest

-- The entries of pending timers that are due, in the order of the queue.
abbrev pub due_timers : List (ℕ × Entry) → ℕ → List Entry → List Entry
due_timers active now [] = []
due_timers active now (e ∷ es) =
    let rest = due_timers active now es in
    if is_pending active e && leb e.expiry_ns now then e ∷ rest else rest

is_live-is_pending :
    (active : List (ℕ × Entry)) (e : Entry) → is_live active e ≡ is_pending active e
unfolding is_live find
is_live-is_pending [] e = refl
is_live-is_pending ((id, held) ∷ active) e =
    let rest = is_live-is_pending active e in
    elim (Bool-cases (id == e.id)) [
      | inl same ↦ ground (arith, same)
      | inr other ↦ ground (arith, other, rest)
    ]

-- The same by the test of the loop.
abbrev live_due : List (ℕ × Entry) → ℕ → List Entry → List Entry
live_due active now [] = []
live_due active now (e ∷ es) =
    let rest = live_due active now es in
    if is_live active e && leb e.expiry_ns now then e ∷ rest else rest

live_due-due_timers :
    (active : List (ℕ × Entry)) (now : ℕ) (es : List Entry)
    → live_due active now es ≡ due_timers active now es
live_due-due_timers active now [] = refl
live_due-due_timers active now (e ∷ es) =
    ap₂ (λ b rest. if b && leb e.expiry_ns now then e ∷ rest else rest)
      (is_live-is_pending active e) (live_due-due_timers active now es)

-- A callback that leaves the timers alone.
abbrev pub inert : ℕ → EpollTimer → EpollTimer
inert cb t = t

pub inert-Behaves : (now : ℕ) → Behaves now inert
inert-Behaves now cb t v = (v, omega arith)

pub push-Absent :
    (id : ℕ) (e : Entry) (es : List Entry) → e.id ≢ id → Absent id es → Absent id (push e es)
unfolding push
push-Absent id e [] ne a = (ne, tt)
push-Absent id e (x ∷ es) ne (h, a) = elim (dec_lt e.expiry_ns x.expiry_ns) [
  | yes lt ↦ ground (arith, lt, ne, h, a)
  | no ge ↦ (let rest = push-Absent id e es ne a in ground (arith, ge, h, rest))
]

pub push-Distinct :
    (e : Entry) (es : List Entry) → Absent e.id es → Distinct es → Distinct (push e es)
unfolding push
push-Distinct e [] a d = (tt, tt)
push-Distinct e (x ∷ es) (h, a) (b, d) = elim (dec_lt e.expiry_ns x.expiry_ns) [
  | yes lt ↦ ground (arith, lt, h, a, b, d)
  | no ge ↦
      let rest = push-Distinct e es a d in
      let all = push-Absent x.id e es (λ q. h (sym q)) b in ground (arith, ge, rest, all)
]

live_due-push :
    (active : List (ℕ × Entry)) (now : ℕ) (e : Entry) (es : List Entry)
    → now < e.expiry_ns
    → live_due active now (push e es) ≡ live_due active now es
unfolding push
live_due-push active now e [] late = ground (arith, late)
live_due-push active now e (x ∷ es) late = elim (dec_lt e.expiry_ns x.expiry_ns) [
  | yes lt ↦ ground (arith, lt, late)
  | no ge ↦ (let rest = live_due-push active now e es late in ground (arith, ge, rest))
]

live_due-late :
    (active : List (ℕ × Entry)) (now : ℕ) (es : List Entry)
    → AtLeast (now + 1) es
    → live_due active now es ≡ []
live_due-late active now [] a = refl
live_due-late active now (e ∷ es) (h, a) =
    let rest = live_due-late active now es a in ground (arith, h, rest)

-- Changing the map at one id does not matter to entries with other ids.
live_due-other :
    (active active' : List (ℕ × Entry)) (now id : ℕ) (es : List Entry)
    → ((j : ℕ) → j ≢ id → find active' j ≡ find active j)
    → Absent id es
    → live_due active' now es ≡ live_due active now es
unfolding is_live
live_due-other active active' now id [] same a = refl
live_due-other active active' now id (e ∷ es) same (h, a) =
    let rest = live_due-other active active' now id es same a in
    let here = same e.id h in ground (arith, rest, here)

-- What a timer that fires leaves in the queue and the map: nothing of its own that is due.
abbrev Left : ℕ → Entry → List (ℕ × Entry) → List Entry → EpollTimer → Type 0
Left now top active rest u =
    Sorted u.heap × Distinct u.heap × (live_due u.active now u.heap ≡ live_due active now rest)

fire_top-Left :
    (now : ℕ) (top : Entry) (t : EpollTimer)
    → Sorted t.heap
    → Distinct t.heap
    → Absent top.id t.heap
    → Left now top t.active t.heap (fire_top inert now top t)
unfolding fire_top
fire_top-Left now top t s d a =
    let again : Entry = record top { expiry_ns = next_expiry now top.interval_ns top.expiry_ns } in
    let gone = erase t.active top.id in
    elim (dec_lt 0 top.interval_ns) [
      | yes pos ↦
          let late = next_expiry-later now top.interval_ns top.expiry_ns pos in
          let heap : (fire_top inert now top t).heap ≡ push again t.heap = ground (arith, pos) in
          let active : (fire_top inert now top t).active ≡ assign gone again =
            ground (arith, pos) in
          let same : live_due (assign gone again) now t.heap ≡ live_due t.active now t.heap =
            live_due-other t.active (assign gone again) now top.id t.heap
              (λ j ne. find-assign_ne gone again j ne ∙ find-erase_ne t.active top.id j ne) a in
          (
            subst Sorted (sym heap) (push-Sorted again t.heap s),
            subst Distinct (sym heap) (push-Distinct again t.heap a d),
            rw (heap, active, live_due-push (assign gone again) now again t.heap late, same),
          )
      | no once ↦
          let heap : (fire_top inert now top t).heap ≡ t.heap = ground (arith, once) in
          let active : (fire_top inert now top t).active ≡ gone = ground (arith, once) in
          let same =
            live_due-other t.active gone now top.id t.heap
              (λ j ne. find-erase_ne t.active top.id j ne) a in
          (subst Sorted (sym heap) s, subst Distinct (sym heap) d, rw (heap, active, same))
    ]

module _ (now : ℕ) where
  drain_loop-fires :
      (fuel : ℕ) (t : EpollTimer) (es fired : List Entry) (u : EpollTimer)
      → t.heap ≡ es
      → Sorted es
      → Distinct es
      → drain_loop inert now fuel t ≡ some (fired, u)
      → fired ≡ live_due t.active now es
  unfolding drain_loop round
  drain_loop-fires zero t es fired u h s d e = absurd (ground (arith, e))
  drain_loop-fires (suc fuel) t [] fired u h s d e = ground (arith, h, e)
  drain_loop-fires (suc fuel) t (top ∷ rest) fired u h s d e =
      let t' : EpollTimer = record t { heap = rest } in
      elim (Bool-cases (is_live t.active top)) [
        | inr dead ↦
            let run : drain_loop inert now fuel t' ≡ some (fired, u) = ground (arith, h, dead, e) in
            let ih = drain_loop-fires fuel t' rest fired u refl s.1 d.1 run in
            ground (arith, dead, ih)
        | inl live ↦ elim (dec_lt now top.expiry_ns) [
          | yes late ↦
              let nothing : fired ≡ [] = ground (arith, h, live, late, e) in
              nothing
              ∙ sym (live_due-late t.active now (top ∷ rest) (stop_late now top rest s late))
          | no early ↦
              let w = fire_top inert now top t' in
              let (sw, dw, same) = fire_top-Left now top t' s.1 d.1 d.0 in
              elim (Option-cases (drain_loop inert now fuel w)) [
                | inl over ↦ absurd (ground (arith, h, live, early, over, e))
                | inr ((more, v), run) ↦
                    let ih = drain_loop-fires fuel w w.heap more v refl sw dw run in
                    let first : fired ≡ top ∷ more = ground (arith, h, live, early, run, e) in
                    first ∙ ap (λ xs. top ∷ xs) (ih ∙ same) ∙ ground (arith, live, early)
              ]
        ]
      ]

  -- When callbacks leave the timers alone, and the queue is in order and its entries have different
  -- ids, the loop of drain_expired comes to an end having fired the active timers that are due, each
  -- once and in the order of the queue, and no others: a timer that was cancelled does not fire.
  pub drain_loop-due_timers :
      (t : EpollTimer)
      → Ordered t
      → Distinct t.heap
      → (fuel : ℕ) × (u : EpollTimer) × (drain_loop inert now fuel t
          ≡ some (due_timers t.active now t.heap, u))
  drain_loop-due_timers t v d =
      let (fuel, more) = drain_loop-Drained inert now (inert-Behaves now) t v in
      let (es, u, run, v', late) = more fuel (omega arith) in
      let fires = drain_loop-fires fuel t t.heap es u refl v.sorted d run in
      (
        fuel,
        u,
        subst (λ xs. drain_loop inert now fuel t ≡ some (xs, u))
            (fires ∙ live_due-due_timers t.active now t.heap) run,
      )
