-- ===== src/Timer/Epoll/Run/Ends.antt =====
-- EpollTimer::run returns once stop is called (timer/src/epoll_timer.cpp).
use mathlib.Core.List.{Memᴰ, map}
use message_us_cld.Prelude.{
  ℕ, zero, suc, ◌+◌, ◌≤◌, ◌≡◌, ◌⊎◌, inl, inr, refl, sym, subst, arith, Bool, true, false, List, [],
  ◌∷◌, ◌++◌, ◌||◌, Option, none, some, Outcome, done, threw, aborted, Bool-cases,
}
use message_us_cld.Timer.Epoll.{
  Entry, EpollTimer, Round, stops, skips, fires, round, drain_loop, drain_expired, Wait,
  interrupted, failed, timed_out, event, run_once, count_overruns,
}
use message_us_cld.Timer.Epoll.Watched.{Ordered}
use message_us_cld.Timer.Epoll.Drain.{Behaves}
use message_us_cld.Timer.Epoll.Rearm.{RunOnce, run_once-RunOnce}
use message_us_cld.Timer.Epoll.Run.{Tick, stop, run_loop, run}

Round-cases :
    (r : Round)
    → (r ≡ stops)
      ⊎ (((t : EpollTimer) × (r ≡ skips t)) ⊎ ((e : Entry) × (t : EpollTimer) × (r ≡ fires e t)))
Round-cases stops = inl refl
Round-cases (skips t) = inr (inl (t, refl))
Round-cases (fires e t) = inr (inr (e, t, refl))

module _ (callback : ℕ → EpollTimer → EpollTimer) (settime : ℕ → Bool) where
  -- More fuel than enough gives the same.
  drain_loop-more :
      (now fuel more : ℕ) (t : EpollTimer) (r : List Entry × EpollTimer)
      → fuel ≤ more
      → drain_loop callback now fuel t ≡ some r
      → drain_loop callback now more t ≡ some r
  unfolding drain_loop
  drain_loop-more now zero more t r le e = absurd cc
  drain_loop-more now (suc fuel) zero t r le e = absurd (omega (arith, le))
  drain_loop-more now (suc fuel) (suc more) t r le e = elim (Round-cases (round callback now t)) [
    | inl over ↦ ground (arith, over, e)
    | inr (inl (u, skip)) ↦
        let s : drain_loop callback now fuel u ≡ some r = ground (arith, skip, e) in
        ground (arith, skip, drain_loop-more now fuel more u r (omega (arith, le)) s)
    | inr (inr (x, u, fire)) ↦
        go x u fire (λ q. drain_loop-more now fuel more u q (omega (arith, le)))
          (drain_loop callback now fuel u) refl
  ]
    where
      go :
          (x : Entry) (u : EpollTimer)
          → round callback now t ≡ fires x u
          → ((q : List Entry × EpollTimer)
              → drain_loop callback now fuel u ≡ some q
              → drain_loop callback now more u ≡ some q)
          → (o : Option (List Entry × EpollTimer)) → drain_loop callback now fuel u ≡ o
          → drain_loop callback now (suc more) t ≡ some r
      go x u fire same none s = absurd (ground (arith, fire, s, e))
      go x u fire same (some q) s = ground (arith, fire, s, e, same q s)

  run_once-more :
      (now fuel more : ℕ) (wait : Wait) (t : EpollTimer) (r : List Entry × Outcome EpollTimer)
      → fuel ≤ more
      → run_once callback settime fuel now wait t ≡ some r
      → run_once callback settime more now wait t ≡ some r
  unfolding run_once drain_expired
  run_once-more now fuel more interrupted t r le e = e
  run_once-more now fuel more failed t r le e = e
  run_once-more now fuel more timed_out t r le e = e
  run_once-more now fuel more (event counter) t r le e =
      go (drain_loop callback now fuel (count_overruns counter t)) refl
    where
      go :
          (o : Option (List Entry × EpollTimer))
          → drain_loop callback now fuel (count_overruns counter t) ≡ o
          → run_once callback settime more now (event counter) t ≡ some r
      go none s = absurd (ground (arith, s, e))
      go (some q) s =
          ground (arith, s, e, drain_loop-more now fuel more (count_overruns counter t) q le s)

  -- What a round leaves.
  abbrev After : Wait → Outcome EpollTimer → Type 0
  After wait (done u) = Ordered u
  After wait threw = (wait ≡ failed) ⊎ ((at : ℕ) × (settime at ≡ false))
  After wait aborted = ⊥

  RunOnce-After :
      (now : ℕ) (wait : Wait) (t : EpollTimer) (es : List Entry) (o : Outcome EpollTimer)
      → Ordered t
      → RunOnce settime now wait t es o
      → After wait o
  RunOnce-After now interrupted t es o v (none_ran, same) = subst (After interrupted) (sym same) v
  RunOnce-After now failed t es o v (none_ran, same) = subst (After failed) (sym same) (inl refl)
  RunOnce-After now timed_out t es o v (none_ran, same) = subst (After timed_out) (sym same) v
  RunOnce-After now (event counter) t es (done u) v (watched, late, first) = watched.ordered
  RunOnce-After now (event counter) t es threw v refused = inr refused
  RunOnce-After now (event counter) t es aborted v never = never

abbrev pub some_stopped : List Tick → Bool
some_stopped [] = false
some_stopped (k ∷ ks) = k.stopped || some_stopped ks

-- The loop is over in good order, or an exception came from epoll_wait or timerfd_settime.
abbrev pub Ended : (ℕ → Bool) → List Tick → Outcome EpollTimer → Type 0
Ended settime ks (done u) = (u.running ≡ false) × Ordered u
Ended settime ks threw = Memᴰ failed (map Tick.wait ks) ⊎ ((at : ℕ) × (settime at ≡ false))
Ended settime ks aborted = ⊥

Ended-later :
    (settime : ℕ → Bool) (k : Tick) (ks : List Tick) (o : Outcome EpollTimer)
    → Ended settime ks o
    → Ended settime (k ∷ ks) o
Ended-later settime k ks (done u) e = e
Ended-later settime k ks threw (inl m) = inl (Memᴰ.tail m)
Ended-later settime k ks threw (inr r) = inr r
Ended-later settime k ks aborted e = e

module _ (callback : ℕ → EpollTimer → EpollTimer) (settime : ℕ → Bool)
    (behaves : (now : ℕ) → Behaves now callback) where
  abbrev Ends : List Tick → EpollTimer → Type 0
  Ends ks t =
      (fuel : ℕ) × ((more : ℕ)
        → fuel ≤ more
        → (es : List Entry) × (o : Outcome EpollTimer) × (run_loop callback settime more ks t
            ≡ some (es, o))
          × Ended settime ks o)

  module _ (k : Tick) (ks : List Tick) (t : EpollTimer) (v : Ordered t)
      (later : (u : EpollTimer) → Ordered u → Ends ks u) (goes_on : k.stopped ≡ false)
      (running : t.running ≡ true) where
    round-Ends :
        (least : ℕ) (es : List Entry) (o : Outcome EpollTimer)
        → run_once callback settime least k.now k.wait t ≡ some (es, o)
        → After callback settime k.wait o
        → Ends (k ∷ ks) t
    unfolding run_loop
    round-Ends least es (done u) e after =
        let (fuel, ends) = later u after in
        (
          least + fuel,
          λ more le.
              let once =
                run_once-more callback settime k.now least more k.wait t (es, done u)
                  (omega (arith, le)) e in
              let (fs, o, rest, ended) = ends more (omega (arith, le)) in
              (
                es ++ fs,
                o,
                ground (arith, goes_on, running, once, rest),
                Ended-later settime k ks o ended,
              ),
        )
    round-Ends least es threw e after = (
      least,
      λ more le.
          let once = run_once-more callback settime k.now least more k.wait t (es, threw) le e in
          (
            es,
            threw,
            ground (arith, goes_on, running, once),
            elim after [ inl same ↦ inl (Memᴰ.head (sym same)) | inr refused ↦ inr refused ],
          ),
    )
    round-Ends least es aborted e after = absurd after

  loop-Ends : (ks : List Tick) (t : EpollTimer) → Ordered t → some_stopped ks ≡ true → Ends ks t
  unfolding run_loop
  loop-Ends [] t v s = absurd cc
  loop-Ends (k ∷ ks) t v s = elim (Bool-cases k.stopped) [
    | inl stopped ↦ (
      0,
      λ more le. (
        [],
        done (stop t),
        ground (arith, stopped),
        (refl, record { sorted = v.sorted; held = v.held }),
      ),
    )
    | inr goes_on ↦ elim (Bool-cases t.running) [
      | inr over ↦ (0, λ more le. ([], done t, ground (arith, goes_on, over), (over, v)))
      | inl running ↦
          let (least, es, o, e, once) =
            run_once-RunOnce callback settime k.now (behaves k.now) k.wait t v in
          round-Ends k ks t v (λ u w. loop-Ends ks u w (ground (arith, s, goes_on))) goes_on running
            least es o e (RunOnce-After callback settime k.now k.wait t es o v once)
    ]
  ]

  -- In rounds in one of which stop is called, with the queue in order and callbacks that behave at
  -- every time: run returns, with the queue in order and `running` off, unless epoll_wait failed in
  -- one of the rounds, or timerfd_settime refused a time, and it throws.
  pub run-Ended :
      (ks : List Tick) (t : EpollTimer)
      → Ordered t
      → some_stopped ks ≡ true
      → (fuel : ℕ) × (es : List Entry) × (o : Outcome EpollTimer) × (run callback settime fuel ks t
          ≡ some (es, o))
        × Ended settime ks o
  unfolding run
  run-Ended ks t v s =
      let (fuel, ends) =
        loop-Ends ks (record t { running = true }) (record { sorted = v.sorted; held = v.held })
          s in
      let (es, o, e, ended) = ends fuel (omega arith) in (fuel, es, o, e, ended)

-- A call of stop before run is lost: run sets `running` again.
stop_before_run :
    (callback : ℕ → EpollTimer → EpollTimer) (settime : ℕ → Bool) (fuel : ℕ) (ks : List Tick)
    (t : EpollTimer)
    → run callback settime fuel ks (stop t) ≡ run callback settime fuel ks t
unfolding run
stop_before_run callback settime fuel ks t = refl
