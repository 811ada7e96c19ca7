-- ===== src/Bus/Checked.antt =====
-- spsc_bus/spsc_bus.hpp: push_checked and pop_checked, the calls that wait and look whether the other
-- process is alive. What each attempt finds, the segment as the other side left it and the answer of
-- kill, is a parameter. `spins` stays in the range of int.
pub mod Report
pub mod Gone
use message_us_cld.Prelude.{
  ℕ, ◌+◌, ◌%◌, ◌≡◌, ◌≢◌, refl, arith, Bool, true, false, List, [], ◌∷◌, ◌&&◌, ◌==◌, not,
  if◌then◌else◌, Option, some, none,
}
use message_us_cld.Bus.Segment.{Segment}
use message_us_cld.Bus.Endpoints.{Producer, Consumer, try_push, try_pop}
use message_us_cld.Bus.Open.{PeerStatus, alive, dead, unknown, Kill, peer_status}

pub record View : Type 0 where
  pub seg : Segment
  pub kill : Kill

unfoldable pub is_dead : PeerStatus → Bool
is_dead alive = false
is_dead dead = true
is_dead unknown = false

-- `none` is a call that still waits when the given attempts are over.
unfoldable pub push_checked :
    ℕ → ℕ → Producer → List ℕ → List View → Option (Bool × Producer × Segment)
push_checked check_every spins p msg [] = none
push_checked check_every spins p msg (v ∷ vs) =
    let (ok, p', seg') = try_push v.seg p msg in
    let rest = push_checked check_every (spins + 1) p' msg vs in
    if ok
    then some (true, p', seg')
    else if (spins + 1) % check_every == 0 && is_dead (peer_status seg'.control.consumer_pid v.kill)
    then some (false, p', seg')
    else rest

-- The size, the bytes and `*peer_dead`.
unfoldable pub pop_checked :
    ℕ → ℕ → Consumer → ℕ → List View → Option (ℕ × List ℕ × Bool × Consumer × Segment)
pop_checked check_every spins c buf_size [] = none
pop_checked check_every spins c buf_size (v ∷ vs) =
    let (n, bytes, c', seg') = try_pop v.seg c buf_size in
    let rest = pop_checked check_every (spins + 1) c' buf_size vs in
    if not (n == 0)
    then some (n, bytes, false, c', seg')
    else if (spins + 1) % check_every == 0 && is_dead (peer_status seg'.control.producer_pid v.kill)
    then some (0, bytes, true, c', seg')
    else rest
