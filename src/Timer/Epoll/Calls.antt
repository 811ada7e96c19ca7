-- ===== src/Timer/Epoll/Calls.antt =====
-- What the calls of EpollTimer come to (timer/src/epoll_timer.cpp: schedule, schedule_periodic,
-- cancel).
use message_us_cld.Prelude.{
  ℕ, ◌+◌, ◌≡◌, ◌≢◌, refl, sym, subst, arith, Bool, false, List, [], ◌∷◌, some, Outcome, done, threw,
  aborted, add64,
}
use message_us_cld.Timer.Epoll.{
  Entry, EpollTimer, find, assign, rearm_timerfd, add, schedule, schedule_periodic, cancel,
}
use message_us_cld.Timer.Epoll.Queue.{find-assign_self}
use message_us_cld.Timer.Epoll.Watched.{Watched, add-Watched, cancel-Watched, new_timer}

-- A new timer is known under the id that the call returns, and the timerfd wakes for it and for every
-- other; or timerfd_settime refused its time.
abbrev pub Scheduled : (ℕ → Bool) → EpollTimer → Entry → Outcome (ℕ × EpollTimer) → Type 0
Scheduled settime t e (done (id, u)) =
    (id ≡ t.next_id) × (u.next_id ≡ add64 t.next_id 1) × (find u.active id ≡ some e) × Watched u
Scheduled settime t e threw = settime e.expiry_ns ≡ false
Scheduled settime t e aborted = ⊥

module _ (settime : ℕ → Bool) (now : ℕ) (t : EpollTimer) (v : Watched t) where
  module _ (delay interval cb : ℕ) where
    pub ids :
        (id : ℕ) (u : EpollTimer) (es : List Entry)
        → t.heap ≡ es
        → add settime now t delay interval cb ≡ done (id, u)
        → (id ≡ t.next_id)
          × (u.next_id ≡ add64 t.next_id 1)
          × (u.active ≡ assign t.active (new_timer now t delay interval cb))
    unfolding add rearm_timerfd
    ids id u [] h e = ground (arith, h, e)
    ids id u (x ∷ es) h e = ground (arith, h, e)

    fails :
        (es : List Entry)
        → t.heap ≡ es
        → add settime now t delay interval cb ≡ threw
        → settime (now + delay) ≡ false
    unfolding add rearm_timerfd
    fails [] h e = ground (arith, h, e)
    fails (x ∷ es) h e = ground (arith, h, e)

    goes_on : (es : List Entry) → t.heap ≡ es → add settime now t delay interval cb ≢ aborted
    unfolding add rearm_timerfd
    goes_on [] h e = ground (arith, h, e)
    goes_on (x ∷ es) h e = ground (arith, h, e)

    add-Scheduled :
        Scheduled settime t
          (new_timer now t delay interval cb)
          (add settime now t delay interval cb)
    add-Scheduled = go (add settime now t delay interval cb) refl
      where
        go :
            (o : Outcome (ℕ × EpollTimer))
            → add settime now t delay interval cb ≡ o
            → Scheduled settime t (new_timer now t delay interval cb) o
        go (done (id, u)) e =
            let (same, next, active) = ids id u t.heap refl e in
            (
              same,
              next,
              subst (λ es. find es id ≡ some (new_timer now t delay interval cb)) (sym active)
                  (subst
                    (λ i.
                      find (assign t.active (new_timer now t delay interval cb)) i
                      ≡ some (new_timer now t delay interval cb))
                    (sym same) (find-assign_self t.active (new_timer now t delay interval cb))),
              add-Watched settime now t delay interval cb id u v e,
            )
        go threw e = fails t.heap refl e
        go aborted e = goes_on t.heap refl e

  -- In a queue in order, holding every active timer and with the timerfd set for its first entry or
  -- earlier, schedule and schedule_periodic return the next id, under which the new timer is known, or
  -- throw when timerfd_settime refuses its time; each call, cancel too, leaves the queue so.
  pub calls-Watched :
      (delay cb id : ℕ)
      → Scheduled settime t (new_timer now t delay 0 cb) (schedule settime now t delay cb)
        × Scheduled settime t
            (new_timer now t delay delay cb)
            (schedule_periodic settime now t delay cb)
        × Watched (cancel t id).1
  unfolding schedule schedule_periodic
  calls-Watched delay cb id =
      (add-Scheduled delay 0 cb, add-Scheduled delay delay cb, cancel-Watched t id v)
