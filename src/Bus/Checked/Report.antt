-- ===== src/Bus/Checked/Report.antt =====
-- What pop_checked and push_checked report.
use message_us_cld.Prelude.{
  ℕ, ◌+◌, ◌≡◌, ◌≢◌, refl, arith, Bool, true, false, List, [], ◌∷◌, ◌==◌, some,
}
use message_us_cld.Bus.Segment.{Segment}
use message_us_cld.Bus.Endpoints.{Producer, Consumer, try_push, try_pop}
use message_us_cld.Bus.Open.{Kill, reached, no_process, refused, peer_status}
use message_us_cld.Bus.Checked.{View, is_dead, push_checked, pop_checked}

-- A pop that comes to an end reports a dead producer exactly when it returns the size 0.
pub pop_checked-report :
    (check_every spins : ℕ) (c : Consumer) (buf_size : ℕ) (views : List View) (n : ℕ)
    (bytes : List ℕ) (peer_dead : Bool) (c' : Consumer) (seg : Segment)
    → pop_checked check_every spins c buf_size views ≡ some (n, bytes, peer_dead, c', seg)
    → peer_dead ≡ (n == 0)
unfolding pop_checked
pop_checked-report check_every spins c buf_size [] n bytes peer_dead c' seg e = ground (arith, e)
pop_checked-report check_every spins c buf_size (v ∷ vs) n bytes peer_dead c' seg e =
    let rest =
      pop_checked-report check_every (spins + 1) (try_pop v.seg c buf_size).2 buf_size vs n bytes
        peer_dead c' seg in
    ground (arith, e, rest)

-- At no attempt is the other process gone.
abbrev pub NoneGone : List View → Type 0
NoneGone [] = Unit {0}
NoneGone (v ∷ vs) = (v.kill ≢ no_process) × NoneGone vs

not_dead :
    (pid : ℕ) (answer : Kill) → answer ≢ no_process → is_dead (peer_status pid answer) ≡ false
unfolding peer_status is_dead
not_dead pid reached ne = ground arith
not_dead pid no_process ne = absurd (ne refl)
not_dead pid refused ne = ground arith

-- While kill never answers that the consumer's process does not exist, a push that comes to an end
-- has pushed the message.
pub push_checked-report :
    (check_every spins : ℕ) (p : Producer) (msg : List ℕ) (views : List View) (ok : Bool)
    (p' : Producer) (seg : Segment)
    → NoneGone views
    → push_checked check_every spins p msg views ≡ some (ok, p', seg)
    → ok ≡ true
unfolding push_checked
push_checked-report check_every spins p msg [] ok p' seg there e = ground (arith, e)
push_checked-report check_every spins p msg (v ∷ vs) ok p' seg (here, there) e =
    let rest =
      push_checked-report check_every (spins + 1) (try_push v.seg p msg).1 msg vs ok p' seg there in
    let living = not_dead (try_push v.seg p msg).2.control.consumer_pid v.kill here in
    ground (arith, e, rest, living)
