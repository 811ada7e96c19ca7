-- ===== src/Timer.antt =====
-- timer: the hierarchical timer wheel, and the timers on timerfd and epoll.
pub mod Wheel
pub mod Epoll
mod Tests
