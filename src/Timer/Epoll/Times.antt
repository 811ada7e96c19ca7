-- ===== src/Timer/Epoll/Times.antt =====
-- timer/src/epoll_timer.cpp: now_ns, and to_itimerspec, the times of the kernel and those of the
-- timers. Times are not negative.
use message_us_cld.Prelude.{ℕ, ◌+◌, ◌*◌, ◌/◌, ◌%◌, ◌<◌, ◌≡◌, arith}
use message_us_cld.Clock.{Timespec}

-- What clock_gettime gives, in nanoseconds.
unfoldable pub now_ns : Timespec → ℕ
now_ns ts = ts.tv_sec * 1000000000 + ts.tv_nsec

-- it_value; it_interval stays 0.
unfoldable pub to_itimerspec : ℕ → Timespec
to_itimerspec expiry_ns = record {
  tv_sec = expiry_ns / 1000000000;
  tv_nsec = expiry_ns % 1000000000;
}

-- The timerfd gets the very time of the timer, with nanoseconds as timerfd_settime takes them.
pub now_ns-to_itimerspec :
    (expiry_ns : ℕ)
    → (now_ns (to_itimerspec expiry_ns) ≡ expiry_ns)
      × ((to_itimerspec expiry_ns).tv_nsec < 1000000000)
unfolding now_ns to_itimerspec
now_ns-to_itimerspec expiry_ns = (omega arith, omega arith)
