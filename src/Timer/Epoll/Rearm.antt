-- ===== src/Timer/Epoll/Rearm.antt =====
-- The second loop of EpollTimer::drain_expired and the whole of it (timer/src/epoll_timer.cpp).
use mathlib.Core.List.{Memᴰ}
use mathlib.Core.List.Memᴰ
use message_us_cld.Prelude.{
  ℕ, ◌+◌, ◌≡◌, ◌≢◌, refl, sym, ◌∙◌, subst, arith, Bool, true, false, List, [], ◌∷◌, Option, some,
  none, inl, inr, Outcome, done, threw, Bool-cases,
}
use native.Mathlib.Decide.{dec_lt}
use message_us_cld.Prelude.{aborted}
use message_us_cld.Timer.Epoll.{
  Wait, interrupted, failed, timed_out, event, count_overruns, run_once,
}
use message_us_cld.Timer.Epoll.{
  Entry, EpollTimer, find, is_live, live_part, rearm_timerfd, rearm_next, drain_expired,
}
use message_us_cld.Timer.Epoll.Queue.{AtLeast, Sorted, Held}
use message_us_cld.Timer.Epoll.Watched.{Ordered, Watched, WakesFor, ordered}
use message_us_cld.Timer.Epoll.Drain.{Behaves, drain_loop-Drained}

AtLeast-live_part :
    (active : List (ℕ × Entry)) (m : ℕ) (es : List Entry)
    → AtLeast m es
    → AtLeast m (live_part active es)
unfolding live_part
AtLeast-live_part active m [] a = tt
AtLeast-live_part active m (e ∷ es) (h, a) =
    let rest = AtLeast-live_part active m es a in
    elim (Bool-cases (is_live active e)) [
      | inl live ↦ ground (arith, live, h, rest)
      | inr dead ↦ ground (arith, dead, rest)
    ]

Sorted-live_part :
    (active : List (ℕ × Entry)) (es : List Entry) → Sorted es → Sorted (live_part active es)
unfolding live_part
Sorted-live_part active [] s = tt
Sorted-live_part active (e ∷ es) (a, s) =
    let rest = Sorted-live_part active es s in
    let all = AtLeast-live_part active e.expiry_ns es a in
    elim (Bool-cases (is_live active e)) [
      | inl live ↦ ground (arith, live, all, rest)
      | inr dead ↦ ground (arith, dead, rest)
    ]

Memᴰ-live_part :
    (active : List (ℕ × Entry)) (x : Entry) (es : List Entry)
    → is_live active x ≡ true
    → Memᴰ x es
    → Memᴰ x (live_part active es)
unfolding live_part
Memᴰ-live_part active x [] l m = m
Memᴰ-live_part active x (e ∷ es) l m = elim (Bool-cases (is_live active e)) [
  | inl live ↦
      let h : Memᴰ x (e ∷ live_part active es) = elim (Memᴰ.cases_cons m) [
        | inl q ↦ Memᴰ.head q
        | inr r ↦ Memᴰ.tail (Memᴰ-live_part active x es l r)
      ] in
      ground (arith, live, h)
  | inr dead ↦
      let h : Memᴰ x (live_part active es) = elim (Memᴰ.cases_cons m) [
        | inl q ↦ absurd (ground (arith, q, l, dead))
        | inr r ↦ Memᴰ-live_part active x es l r
      ] in
      ground (arith, dead, h)
]

held_live :
    (active : List (ℕ × Entry)) (e : Entry) → find active e.id ≡ some e → is_live active e ≡ true
unfolding is_live
held_live active e found = ground (arith, found)

Held-live_part :
    (active : List (ℕ × Entry)) (es : List Entry)
    → Held active es
    → Held active (live_part active es)
Held-live_part active es held i e found =
    let (at_i, m) = held i e found in
    let live = held_live active e (subst (λ j. find active j ≡ some e) (sym at_i) found) in
    (at_i, Memᴰ-live_part active e es live m)

-- The timerfd is set for the first entry of the queue, when there is one.
abbrev pub FirstArmed : Option ℕ → List Entry → Type 0
FirstArmed armed [] = Unit {0}
FirstArmed armed (top ∷ rest) = armed ≡ some top.expiry_ns

first-wakes :
    (armed : Option ℕ) (es : List Entry) → Sorted es → FirstArmed armed es → WakesFor armed es
first-wakes none [] s f = refl
first-wakes none (top ∷ rest) s f = absurd (ground (arith, f))
first-wakes (some a) [] s f = tt
first-wakes (some a) (top ∷ rest) (all, s) f =
    let same : top.expiry_ns ≡ a = ground (arith, f) in
    (omega (arith, same), subst (λ m. AtLeast m rest) same all)

module _ (settime : ℕ → Bool) (t u : EpollTimer) where
  abbrev Rearmed : Type 0
  Rearmed = (u.heap ≡ live_part t.active t.heap) × (u.active ≡ t.active) × FirstArmed u.armed u.heap

  rearm_next-Rearmed :
      (es : List Entry) → live_part t.active t.heap ≡ es → rearm_next settime t ≡ done u → Rearmed
  unfolding rearm_next rearm_timerfd
  rearm_next-Rearmed [] h e =
      let empty : u.heap ≡ [] = ground (arith, h, e) in
      (empty ∙ sym h, ground (arith, h, e), subst (FirstArmed u.armed) (sym empty) tt)
  rearm_next-Rearmed (x ∷ es) h e =
      let full : u.heap ≡ x ∷ es = ground (arith, h, e) in
      (
        full ∙ sym h,
        ground (arith, h, e),
        subst (FirstArmed u.armed) (sym full) (ground (arith, h, e)),
      )

-- What drain_expired comes to: the queue is sorted and holds every active timer, nothing in it is due,
-- and the timerfd is set for its first entry; or timerfd_settime refused a time.
abbrev pub Settled : (ℕ → Bool) → ℕ → Outcome EpollTimer → Type 0
Settled settime now (done u) = Watched u × AtLeast (now + 1) u.heap × FirstArmed u.armed u.heap
Settled settime now threw = (at : ℕ) × (settime at ≡ false)
Settled settime now aborted = ⊥

module _ (settime : ℕ → Bool) (now : ℕ) (t : EpollTimer) (v : Ordered t)
    (late : AtLeast (now + 1) t.heap) where
  rearm_next-done : (u : EpollTimer) → rearm_next settime t ≡ done u → Settled settime now (done u)
  rearm_next-done u e =
      let (heap, active, first) =
        rearm_next-Rearmed settime t u (live_part t.active t.heap) refl e in
      let s = Sorted-live_part t.active t.heap v.sorted in
      let o = ordered u heap active s (Held-live_part t.active t.heap v.held) in
      (
        record { ordered = o; wakes = first-wakes u.armed u.heap o.sorted first },
        subst (AtLeast (now + 1)) (sym heap) (AtLeast-live_part t.active (now + 1) t.heap late),
        first,
      )

  refused :
      (es : List Entry)
      → live_part t.active t.heap ≡ es
      → rearm_next settime t ≡ threw
      → (at : ℕ) × (settime at ≡ false)
  unfolding rearm_next rearm_timerfd
  refused [] h e = absurd (ground (arith, h, e))
  refused (x ∷ es) h e = (x.expiry_ns, ground (arith, h, e))

  goes_on : (es : List Entry) → live_part t.active t.heap ≡ es → rearm_next settime t ≢ aborted
  unfolding rearm_next rearm_timerfd
  goes_on [] h e = ground (arith, h, e)
  goes_on (x ∷ es) h e = ground (arith, h, e)

  rearm_next-Settled : Settled settime now (rearm_next settime t)
  rearm_next-Settled = go (rearm_next settime t) refl
    where
      go : (o : Outcome EpollTimer) → rearm_next settime t ≡ o → Settled settime now o
      go (done u) e = rearm_next-done u e
      go threw e = refused (live_part t.active t.heap) refl e
      go aborted e = goes_on (live_part t.active t.heap) refl e

-- What a call of run_once comes to, by the answer of epoll_wait.
abbrev pub RunOnce : (ℕ → Bool) → ℕ → Wait → EpollTimer → List Entry → Outcome EpollTimer → Type 0
RunOnce settime now interrupted t es o = (es ≡ []) × (o ≡ done t)
RunOnce settime now failed t es o = (es ≡ []) × (o ≡ threw)
RunOnce settime now timed_out t es o = (es ≡ []) × (o ≡ done t)
RunOnce settime now (event counter) t es o = Settled settime now o

count_overruns-Ordered :
    (counter : Option ℕ) (t : EpollTimer) → Ordered t → Ordered (count_overruns counter t)
unfolding count_overruns
count_overruns-Ordered none t v = v
count_overruns-Ordered (some n) t v = elim (dec_lt 1 n) [
  | yes more ↦
      ordered (count_overruns (some n) t) (ground (arith, more)) (ground (arith, more)) v.sorted
        v.held
  | no one ↦
      ordered (count_overruns (some n) t) (ground (arith, one)) (ground (arith, one)) v.sorted
        v.held
]

module _ (callback : ℕ → EpollTimer → EpollTimer) (settime : ℕ → Bool) (now : ℕ)
    (behaves : Behaves now callback) where
  drain_expired-Settled :
      (t : EpollTimer)
      → Ordered t
      → (fuel : ℕ) × (es : List Entry) × (o : Outcome EpollTimer) × (drain_expired callback settime
            fuel now t
          ≡ some (es, o))
        × Settled settime now o
  unfolding drain_expired
  drain_expired-Settled t v =
      let (fuel, more) = drain_loop-Drained callback now behaves t v in
      let (es, u, run, v', late) = more fuel (omega arith) in
      (
        fuel,
        es,
        rearm_next settime u,
        ground (arith, run),
        rearm_next-Settled settime now u v' late,
      )

  -- When the queue is in order and callbacks behave, a call of run_once returns. Interrupted or timed
  -- out it changes nothing, and when epoll_wait fails it throws; on an event it leaves the queue
  -- sorted, with every active timer in it and nothing that is due, and the timerfd set for its first
  -- entry, unless timerfd_settime refuses the time and it throws.
  pub run_once-RunOnce :
      (wait : Wait) (t : EpollTimer)
      → Ordered t
      → (fuel : ℕ) × (es : List Entry) × (o : Outcome EpollTimer) × (run_once callback settime fuel
            now wait t
          ≡ some (es, o))
        × RunOnce settime now wait t es o
  unfolding run_once
  run_once-RunOnce interrupted t v = (0, [], done t, refl, (refl, refl))
  run_once-RunOnce failed t v = (0, [], threw, refl, (refl, refl))
  run_once-RunOnce timed_out t v = (0, [], done t, refl, (refl, refl))
  run_once-RunOnce (event counter) t v =
      drain_expired-Settled (count_overruns counter t) (count_overruns-Ordered counter t v)
