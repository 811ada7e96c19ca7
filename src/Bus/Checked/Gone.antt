-- ===== src/Bus/Checked/Gone.antt =====
-- pop_checked does not wait for a producer that is gone.
use native.Mathlib.Decide.{ℕ_discrete}
use native.Mathlib.Nat.{mod_self}
use message_us_cld.Prelude.{
  ℕ, zero, suc, ◌+◌, ◌-◌, ◌%◌, ◌<◌, ◌≤◌, ◌≡◌, ◌≢◌, sym, ap, ◌∙◌, arith, Bool, true, List, [], ◌∷◌,
  ◌==◌, some, length, inl, inr, Option-cases, Option, none,
}
use message_us_cld.Bus.Segment.{Segment}
use message_us_cld.Bus.Endpoints.{Consumer, try_pop, release}
use message_us_cld.Bus.Open.{no_process, peer_status}
use message_us_cld.Bus.Checked.{View, is_dead, pop_checked}
use message_us_cld.Bus.Checked.Report.{pop_checked-report}

-- A producer is registered at every attempt, and its process does not exist.
abbrev pub AllGone : List View → Type 0
AllGone [] = Unit
AllGone (v ∷ vs) = (v.seg.control.producer_pid ≢ 0) × (v.kill ≡ no_process) × AllGone vs

try_pop-producer_pid :
    (seg : Segment) (c : Consumer) (buf_size : ℕ)
    → (try_pop seg c buf_size).3.control.producer_pid ≡ seg.control.producer_pid
unfolding try_pop release
try_pop-producer_pid seg c buf_size = ground arith

gone_is_dead : (pid : ℕ) → pid ≢ 0 → is_dead (peer_status pid no_process) ≡ true
unfolding peer_status is_dead
gone_is_dead pid ne = ground arith

-- The call is over, and reports a dead producer exactly when it returns the size 0.
abbrev pub Returned : Option (ℕ × List ℕ × Bool × Consumer × Segment) → Type 0
Returned r =
    (n : ℕ) × (bytes : List ℕ) × (peer_dead : Bool) × (c : Consumer) × (seg : Segment) × (r
      ≡ some (n, bytes, peer_dead, c, seg))
    × (peer_dead ≡ (n == 0))

module _ (check_every buf_size : ℕ) where
  found_dead :
      (v : View) (c : Consumer)
      → v.seg.control.producer_pid ≢ 0
      → v.kill ≡ no_process
      → is_dead (peer_status (try_pop v.seg c buf_size).3.control.producer_pid v.kill) ≡ true
  found_dead v c pid answer =
      let same = try_pop-producer_pid v.seg c buf_size in
      ap (λ a. is_dead (peer_status (try_pop v.seg c buf_size).3.control.producer_pid a)) answer
      ∙ gone_is_dead (try_pop v.seg c buf_size).3.control.producer_pid
          (λ none. pid (sym same ∙ none))

  -- `j` more attempts after this one come to a look at the producer.
  not_waiting :
      (j spins : ℕ) (c : Consumer) (views : List View)
      → (spins + suc j) % check_every ≡ 0
      → j < length views
      → AllGone views
      → pop_checked check_every spins c buf_size views ≢ none
  unfolding pop_checked
  not_waiting j spins c [] over short gone e = omega (arith, short)
  not_waiting zero spins c (v ∷ vs) over short (pid, answer, gone) e =
      ground (arith, e, over, found_dead v c pid answer)
  not_waiting (suc j) spins c (v ∷ vs) over short (pid, answer, gone) e =
      elim (ℕ_discrete ((spins + 1) % check_every) 0) [
        | yes now ↦ ground (arith, e, now, found_dead v c pid answer)
        | no later ↦
            let next = (try_pop v.seg c buf_size).2 in
            let rest : pop_checked check_every (spins + 1) next buf_size vs ≡ none =
              ground (arith, e, later) in
            not_waiting j (spins + 1) next vs
              (ap (λ n. n % check_every) {x = spins + 1 + suc j} {y = spins + suc (suc j)}
                  (omega arith)
                ∙ over)
              (omega (arith, short)) gone rest
      ]

  -- Over `check_every` attempts or more, `check_every` at least 1, at each of which a producer is
  -- registered and its process does not exist, the call returns; it reports a dead producer exactly
  -- when it returns the size 0.
  pub pop_checked-Returned :
      (c : Consumer) (views : List View)
      → 1 ≤ check_every
      → check_every ≤ length views
      → AllGone views
      → Returned (pop_checked check_every 0 c buf_size views)
  pop_checked-Returned c views one enough gone =
      elim (Option-cases (pop_checked check_every 0 c buf_size views)) [
        | inl waits ↦ absurd (
            not_waiting (check_every - 1) 0 c views
              (ap (λ n. n % check_every) {x = 0 + suc (check_every - 1)} {y = check_every}
                  (omega (arith, one))
                ∙ mod_self check_every)
              (omega (arith, one, enough)) gone waits)
        | inr ((n, bytes, peer_dead, c', seg), e) ↦ (
          n,
          bytes,
          peer_dead,
          c',
          seg,
          e,
          pop_checked-report check_every 0 c buf_size views n bytes peer_dead c' seg e,
        )
      ]
