-- ===== src/Timer/Tests/Epoll.antt =====
-- The theorems of EpollTimer on three timers, of which one is cancelled.
use message_us_cld.Prelude.{
  ℕ, ◌≡◌, refl, arith, Bool, true, false, List, [], ◌∷◌, some, none, Outcome, done,
}
use message_us_cld.Timer.Epoll.{
  Entry, EpollTimer, Stats, make, push, find, erase, rearm_timerfd, add, schedule,
  schedule_periodic, cancel, next_expiry, catch_up, drain_loop, run_once, event, timed_out,
}
use message_us_cld.Timer.Epoll.Cadence.{FirstAfter, next_expiry-FirstAfter}
use message_us_cld.Timer.Epoll.Watched.{Watched, new_timer, add-Watched, cancel-Watched}
use message_us_cld.Timer.Epoll.Rearm.{RunOnce, run_once-RunOnce}
use message_us_cld.Timer.Epoll.Fires.{inert, inert-Behaves, due_timers, drain_loop-due_timers}
use message_us_cld.Timer.Epoll.Run.{Tick, run}
use message_us_cld.Timer.Epoll.Run.Ends.{Ended, run-Ended}
use message_us_cld.Timer.Epoll.Calls.{Scheduled, calls-Watched}

abbrev allowed : ℕ → Bool
allowed at = true

abbrev counts : ℕ → Stats
counts n = record { fired = 0; cancelled = 0; rearms = n; overruns = 0 }

abbrev no_timers : EpollTimer
no_timers = record {
  heap = [];
  active = [];
  armed = none;
  running = false;
  next_id = 1;
  stats = counts 0;
}

made :
    make (record { epoll_create = true; timerfd_create = true; epoll_ctl = true })
    ≡ (done no_timers, 2)
unfolding make
made = refl

no_timers-Watched : Watched no_timers
unfolding find
no_timers-Watched = record {
  ordered = record { sorted = tt; held = λ i e found. absurd (ground (arith, found)) };
  wakes = refl;
}

abbrev first : Entry
first = record { id = 1; expiry_ns = 10; interval_ns = 0; cb = 100 }

abbrev second : Entry
second = record { id = 2; expiry_ns = 7; interval_ns = 7; cb = 200 }

abbrev third : Entry
third = record { id = 3; expiry_ns = 20; interval_ns = 0; cb = 300 }

abbrev one_timer : EpollTimer
one_timer = record {
  heap = first ∷ [];
  active = (1, first) ∷ [];
  armed = some 10;
  running = false;
  next_id = 2;
  stats = counts 1;
}

abbrev two_timers : EpollTimer
two_timers = record {
  heap = second ∷ first ∷ [];
  active = (2, second) ∷ (1, first) ∷ [];
  armed = some 7;
  running = false;
  next_id = 3;
  stats = counts 2;
}

abbrev three_timers : EpollTimer
three_timers = record {
  heap = second ∷ first ∷ third ∷ [];
  active = (3, third) ∷ (2, second) ∷ (1, first) ∷ [];
  armed = some 7;
  running = false;
  next_id = 4;
  stats = counts 2;
}

added_first : add allowed 0 no_timers 10 0 100 ≡ done (1, one_timer)
unfolding add rearm_timerfd push erase
added_first = refl

added_second : add allowed 0 one_timer 7 7 200 ≡ done (2, two_timers)
unfolding add rearm_timerfd push erase
added_second = refl

added_third : add allowed 0 two_timers 20 0 300 ≡ done (3, three_timers)
unfolding add rearm_timerfd push erase
added_third = refl

three_timers-Watched : Watched three_timers
three_timers-Watched =
    add-Watched allowed 0 two_timers 20 0 300 3 three_timers
      (add-Watched allowed 0 one_timer 7 7 200 2 two_timers
        (add-Watched allowed 0 no_timers 10 0 100 1 one_timer no_timers-Watched added_first)
        added_second)
      added_third

abbrev two_left : EpollTimer
two_left = (cancel three_timers 1).1

two_left-Watched : Watched two_left
two_left-Watched = cancel-Watched three_timers 1 three_timers-Watched

next_expiry-FirstAfter_example : FirstAfter 30 7 14 (next_expiry 30 7 7)
next_expiry-FirstAfter_example = next_expiry-FirstAfter 30 7 7 (omega arith)

next_expiry-value : next_expiry 30 7 7 ≡ 35
unfolding next_expiry catch_up
next_expiry-value = refl

calls-Watched_example :
    Scheduled allowed two_timers (new_timer 1 two_timers 5 0 9) (schedule allowed 1 two_timers 5 9)
    × Scheduled allowed two_timers
        (new_timer 1 two_timers 5 5 9)
        (schedule_periodic allowed 1 two_timers 5 9)
    × Watched (cancel two_timers 2).1
calls-Watched_example =
    calls-Watched allowed 1 two_timers
      (add-Watched allowed 0 one_timer 7 7 200 2 two_timers
        (add-Watched allowed 0 no_timers 10 0 100 1 one_timer no_timers-Watched added_first)
        added_second)
      5 9 2

run_once-RunOnce_example :
    (fuel : ℕ) × (es : List Entry) × (o : Outcome EpollTimer) × (run_once inert allowed fuel 30
        (event (some 1))
        two_left
      ≡ some (es, o))
    × RunOnce allowed 30 (event (some 1)) two_left es o
run_once-RunOnce_example =
    run_once-RunOnce inert allowed 30 (inert-Behaves 30) (event (some 1)) two_left
      two_left-Watched.ordered

drain_loop-due_timers_example :
    (fuel : ℕ) × (u : EpollTimer) × (drain_loop inert 30 fuel three_timers
      ≡ some (due_timers three_timers.active 30 three_timers.heap, u))
drain_loop-due_timers_example =
    drain_loop-due_timers 30 three_timers three_timers-Watched.ordered
      ((ground arith, (ground arith, tt)), ((ground arith, tt), (tt, tt)))

two_left_due : due_timers two_left.active 30 two_left.heap ≡ second ∷ third ∷ []
unfolding cancel find erase
two_left_due = refl

-- A round that fires the second timer, one that times out, and a stop.
abbrev rounds : List Tick
rounds =
    record { stopped = false; now = 8; wait = event (some 1) }
    ∷ record { stopped = false; now = 9; wait = timed_out }
    ∷ record { stopped = true; now = 9; wait = timed_out }
    ∷ []

run-Ended_example :
    (fuel : ℕ) × (es : List Entry) × (o : Outcome EpollTimer) × (run inert allowed fuel rounds
        two_left
      ≡ some (es, o))
    × Ended allowed rounds o
run-Ended_example =
    run-Ended inert allowed inert-Behaves rounds two_left two_left-Watched.ordered refl
