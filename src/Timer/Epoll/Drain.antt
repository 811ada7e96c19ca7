-- ===== src/Timer/Epoll/Drain.antt =====
-- The first loop of EpollTimer::drain_expired (timer/src/epoll_timer.cpp): it comes to an end, and
-- leaves no timer that is due.
use native.Mathlib.Decide.{dec_lt}
use mathlib.Core.List.Memᴰ
use message_us_cld.Prelude.{
  ℕ, zero, suc, ◌+◌, ◌≤◌, ◌<◌, ◌≡◌, refl, sym, ap, ◌∙◌, subst, arith, false, List, [], ◌∷◌, some,
  leb, if◌then◌else◌, inl, inr, length, sum_by,
}
use message_us_cld.Prelude.{Bool-cases}
use message_us_cld.Timer.Epoll.{
  Entry, EpollTimer, push, erase, assign, is_live, next_expiry, fire_top, round, stops, skips,
  fires, drain_loop,
}
use message_us_cld.Timer.Epoll.Queue.{
  AtLeast, Sorted, Held, AtLeast-le, push-Sorted, find-erase_self,
}
use message_us_cld.Timer.Epoll.Watched.{Ordered, ordered, erase-Held, assign-Held}
use message_us_cld.Timer.Epoll.Cadence.{next_expiry-later}

abbrev pub due : ℕ → Entry → ℕ
due now e = if leb e.expiry_ns now then 1 else 0

-- A callback that keeps the queue in order and leaves no more due entries in it than it found.
abbrev pub Behaves : ℕ → (ℕ → EpollTimer → EpollTimer) → Type 0
Behaves now callback =
    (cb : ℕ) (t : EpollTimer)
    → Ordered t
    → Ordered (callback cb t) × (sum_by (due now) (callback cb t).heap ≤ sum_by (due now) t.heap)

pub sum_by-push :
    (now : ℕ) (e : Entry) (es : List Entry)
    → sum_by (due now) (push e es) ≡ due now e + sum_by (due now) es
unfolding push
sum_by-push now e [] = omega arith
sum_by-push now e (x ∷ es) = elim (dec_lt e.expiry_ns x.expiry_ns) [
  | yes lt ↦ ground (arith, lt)
  | no ge ↦ (let rest = sum_by-push now e es in ground (arith, ge, rest))
]

-- Taking the first entry off leaves the others held, when it was not live or is erased.
skip-Held :
    (active : List (ℕ × Entry)) (top : Entry) (rest : List Entry)
    → is_live active top ≡ false
    → Held active (top ∷ rest)
    → Held active rest
unfolding is_live
skip-Held active top rest dead held i e found =
    let (at_i, m) = held i e found in
    (
      at_i,
      elim (Memᴰ.cases_cons m) [
        | inl same ↦ absurd (ground (arith, same, at_i, found, dead))
        | inr later ↦ later
      ],
    )

fired-Held :
    (active : List (ℕ × Entry)) (top : Entry) (rest : List Entry)
    → Held active (top ∷ rest)
    → Held (erase active top.id) rest
fired-Held active top rest held i e found =
    let (at_i, m) = erase-Held active (top ∷ rest) top.id held i e found in
    (
      at_i,
      elim (Memᴰ.cases_cons m) [
        | inl same ↦
            let id : i ≡ top.id = sym at_i ∙ ap Entry.id same in
            absurd (ground (arith, found, find-erase_self active top.id, id))
        | inr later ↦ later
      ],
    )

-- A live entry after the first time means that nothing of the queue is due.
pub stop_late :
    (now : ℕ) (top : Entry) (rest : List Entry)
    → Sorted (top ∷ rest)
    → now < top.expiry_ns
    → AtLeast (now + 1) (top ∷ rest)
stop_late now top rest (a, s) late =
    (omega (arith, late), AtLeast-le (now + 1) top.expiry_ns rest (omega (arith, late)) a)

skipped :
    (t : EpollTimer) (top : Entry) (rest : List Entry)
    → t.heap ≡ top ∷ rest
    → Ordered t
    → is_live t.active top ≡ false
    → Ordered (record t { heap = rest })
skipped t top rest h v dead = record {
  sorted = (subst Sorted h v.sorted).1;
  held = skip-Held t.active top rest dead (subst (Held t.active) h v.held);
}

fired :
    (t : EpollTimer) (top : Entry) (rest : List Entry)
    → t.heap ≡ top ∷ rest
    → Ordered t
    → Ordered (record t { active = erase t.active top.id; heap = rest })
fired t top rest h v = record {
  sorted = (subst Sorted h v.sorted).1;
  held = fired-Held t.active top rest (subst (Held t.active) h v.held);
}

module _ (callback : ℕ → EpollTimer → EpollTimer) (now : ℕ) (behaves : Behaves now callback) where
  fire_top-Ordered :
      (e : Entry) (t : EpollTimer)
      → Ordered (record t { active = erase t.active e.id })
      → Ordered (fire_top callback now e t)
        × (sum_by (due now) (fire_top callback now e t).heap ≤ sum_by (due now) t.heap)
  unfolding fire_top
  fire_top-Ordered e t v =
      let u = callback e.cb (record t { active = erase t.active e.id }) in
      let (v', fewer) = behaves e.cb (record t { active = erase t.active e.id }) v in
      let again : Entry = record e { expiry_ns = next_expiry now e.interval_ns e.expiry_ns } in
      elim (dec_lt 0 e.interval_ns) [
        | yes pos ↦
            let heap : (fire_top callback now e t).heap ≡ push again u.heap = ground (arith, pos) in
            let late = next_expiry-later now e.interval_ns e.expiry_ns pos in
            let active : (fire_top callback now e t).active ≡ assign u.active again =
              ground (arith, pos) in
            (
              ordered (fire_top callback now e t) heap active (push-Sorted again u.heap v'.sorted)
                  (assign-Held u.active u.heap again v'.held),
              subst (λ es. sum_by (due now) es ≤ sum_by (due now) t.heap) (sym heap)
                  (ground (arith, sum_by-push now again u.heap, late, fewer)),
            )
        | no once ↦
            let heap : (fire_top callback now e t).heap ≡ u.heap = ground (arith, once) in
            let active : (fire_top callback now e t).active ≡ u.active = ground (arith, once) in
            (
              ordered (fire_top callback now e t) heap active v'.sorted v'.held,
              subst (λ es. sum_by (due now) es ≤ sum_by (due now) t.heap) (sym heap) fewer,
            )
      ]

  abbrev Drained : EpollTimer → ℕ → Type 0
  Drained t fuel =
      (es : List Entry) × (u : EpollTimer) × (drain_loop callback now fuel t ≡ some (es, u))
      × Ordered u
      × AtLeast (now + 1) u.heap

  abbrev Enough : EpollTimer → Type 0
  Enough t = (least : ℕ) × ((fuel : ℕ) → least ≤ fuel → Drained t fuel)

  drained-stops :
      (t : EpollTimer)
      → Ordered t
      → round callback now t ≡ stops
      → AtLeast (now + 1) t.heap
      → Enough t
  unfolding drain_loop
  drained-stops t v e late = (1, go)
    where
      go : (fuel : ℕ) → 1 ≤ fuel → Drained t fuel
      go zero h = absurd (omega (arith, h))
      go (suc fuel) h = ([], t, ground (arith, e), v, late)

  drained-skips : (t u : EpollTimer) → round callback now t ≡ skips u → Enough u → Enough t
  unfolding drain_loop
  drained-skips t u e (least, more) = (suc least, go)
    where
      go : (fuel : ℕ) → suc least ≤ fuel → Drained t fuel
      go zero h = absurd (omega (arith, h))
      go (suc fuel) h =
          let (es, w, run, v, late) = more fuel (omega (arith, h)) in
          (es, w, ground (arith, e, run), v, late)

  drained-fires :
      (t u : EpollTimer) (top : Entry) → round callback now t ≡ fires top u → Enough u → Enough t
  unfolding drain_loop
  drained-fires t u top e (least, more) = (suc least, go)
    where
      go : (fuel : ℕ) → suc least ≤ fuel → Drained t fuel
      go zero h = absurd (omega (arith, h))
      go (suc fuel) h =
          let (es, w, run, v, late) = more fuel (omega (arith, h)) in
          (top ∷ es, w, ground (arith, e, run), v, late)

  -- `d` bounds the due entries and `n` the entries: a round lowers the first, or keeps it and lowers
  -- the second.
  drain_ends :
      (d n : ℕ) (t : EpollTimer) (es : List Entry)
      → t.heap ≡ es
      → Ordered t
      → sum_by (due now) es ≤ d
      → length es ≤ n
      → Enough t
  unfolding round
  drain_ends d n t [] h v few short =
      drained-stops t v (ground (arith, h)) (subst (AtLeast (now + 1)) (sym h) tt)
  drain_ends d zero t (top ∷ rest) h v few short = absurd (omega (arith, short))
  drain_ends zero (suc n) t (top ∷ rest) h v few short = elim (Bool-cases (is_live t.active top)) [
    | inl live ↦
        let late : now < top.expiry_ns = ground (arith, few) in
        drained-stops t v (ground (arith, h, live, late)) (
          subst (AtLeast (now + 1)) (sym h) (stop_late now top rest (subst Sorted h v.sorted) late))
    | inr dead ↦
        drained-skips t (record t { heap = rest }) (ground (arith, h, dead))
          (drain_ends zero n (record t { heap = rest }) rest refl (skipped t top rest h v dead)
            (ground (arith, few)) (omega (arith, short)))
  ]
  drain_ends (suc d) (suc n) t (top ∷ rest) h v few short =
      elim (Bool-cases (is_live t.active top)) [
        | inl live ↦ elim (dec_lt now top.expiry_ns) [
          | yes late ↦ drained-stops t v (ground (arith, h, live, late)) (
              subst (AtLeast (now + 1)) (sym h)
                (stop_late now top rest (subst Sorted h v.sorted) late))
          | no early ↦
              let u = fire_top callback now top (record t { heap = rest }) in
              let (v', fewer) =
                fire_top-Ordered top (record t { heap = rest }) (fired t top rest h v) in
              drained-fires t u top (ground (arith, h, live, early)) (
                drain_ends d (length u.heap) u u.heap refl v' (ground (arith, few, early, fewer))
                  (omega arith))
        ]
        | inr dead ↦
            drained-skips t (record t { heap = rest }) (ground (arith, h, dead))
              (drain_ends (suc d) n (record t { heap = rest }) rest refl
                (skipped t top rest h v dead) (ground (arith, few)) (omega (arith, short)))
      ]

  -- When callbacks behave, the loop comes to an end with enough fuel; it leaves the queue in order,
  -- with every timer that is still active in it, and no entry that is due.
  pub drain_loop-Drained : (t : EpollTimer) → Ordered t → Enough t
  drain_loop-Drained t v =
      drain_ends (sum_by (due now) t.heap) (length t.heap) t t.heap refl v (omega arith)
        (omega arith)
