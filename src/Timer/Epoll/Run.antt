-- ===== src/Timer/Epoll/Run.antt =====
-- EpollTimer::run and stop (timer/src/epoll_timer.cpp and timer/include/epoll_timer.hpp) over a list
-- of rounds. A list that is over leaves the loop going on.
pub mod Ends
use message_us_cld.Prelude.{
  ℕ, Bool, true, false, List, [], ◌∷◌, ◌++◌, Option, none, some, Outcome, done, threw, aborted, not,
  if◌then◌else◌,
}
use message_us_cld.Timer.Epoll.{Entry, EpollTimer, Wait, run_once}

-- A round: whether `stop` was called before the test of the loop, the time, and epoll_wait's answer.
pub record Tick : Type 0 where
  pub stopped : Bool
  pub now : ℕ
  pub wait : Wait

abbrev pub stop : EpollTimer → EpollTimer
stop t = record t { running = false }

module _ (callback : ℕ → EpollTimer → EpollTimer) (settime : ℕ → Bool) (fuel : ℕ) where
  -- The entries whose callbacks ran, and the timers or the exception.
  unfoldable pub run_loop : List Tick → EpollTimer → Option (List Entry × Outcome EpollTimer)
  run_loop [] t = none
  run_loop (k ∷ ks) t =
      let t' = if k.stopped then stop t else t in
      if not t'.running
      then some ([], done t')
      else elim (run_once callback settime fuel k.now k.wait t') [
        | none ↦ none
        | some (es, done u) ↦ elim (run_loop ks u) [
          | none ↦ none
          | some (fs, o) ↦ some (es ++ fs, o)
        ]
        | some (es, threw) ↦ some (es, threw)
        | some (es, aborted) ↦ some (es, aborted)
      ]

  unfoldable pub run : List Tick → EpollTimer → Option (List Entry × Outcome EpollTimer)
  run ks t = run_loop ks (record t { running = true })
