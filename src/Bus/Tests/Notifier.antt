-- ===== src/Bus/Tests/Notifier.antt =====
-- A consumer that waits for the first message on a segment of two slots.
use message_us_cld.Prelude.{
  ℕ, zero, suc, ◌≡◌, ◌≢◌, refl, arith, true, false, [], ◌∷◌, Option, none, some,
}
use message_us_cld.Bus.Layout.{slot_index, compute_slot_stride}
use message_us_cld.Bus.Segment.{Segment, Kernel, create, fresh, zero_slot}
use message_us_cld.Bus.Endpoints.{producer, consumer, reserve, fill, overwrite, publish}
use message_us_cld.Bus.Threads.{
  System, reserves, fills, publishes, after_reserve, after_fill, after_publish,
}
use message_us_cld.Bus.Threads.Valid.{in_ring}
use message_us_cld.Bus.Notifier.{
  Eventfd, Notified, wait, wait_for_ms, answer, interrupted, Reach, here, next, pushes, notifies,
}
use message_us_cld.Bus.Notifier.Wakes.{waiting_for_first, no_lost_wakeup}

-- The counter of an eventfd.
counted : ℕ → Option ℕ
counted zero = none
counted (suc n) = some zero

abbrev counter : Eventfd ℕ
counter = record { write = λ n. suc n; read = counted }

abbrev kernel : Kernel
kernel = record { shm_open = true; ftruncate = true; mmap = true }

abbrev pair : Segment
pair = fresh 7 2 4

abbrev start : Notified ℕ
start = waiting_for_first 0 11 12 pair

abbrev pushed : System
pushed = after_publish (after_fill (after_reserve start.bus (5 ∷ [])) (5 ∷ [])) (5 ∷ [])

abbrev told : Notified ℕ
told = record { bus = pushed; fd = 1; telling = false; sleeping = true }

told_run : Reach counter 4 start told
unfolding producer consumer reserve fill overwrite publish fresh slot_index zero_slot
    compute_slot_stride
told_run =
    next
      (next
        (next (next here (pushes (reserves (5 ∷ []) refl refl) tt refl refl))
          (pushes (fills (5 ∷ []) refl refl) tt refl refl))
        (pushes (publishes (5 ∷ []) refl refl) tt refl refl))
      (notifies refl refl)

counter_wakes : (n : ℕ) → counted (suc n) ≢ none
unfolding counted
counter_wakes n e = cc

told_some : in_ring told.bus ≢ []
unfolding producer consumer reserve fill overwrite publish fresh slot_index zero_slot
    compute_slot_stride
told_some e = cc

no_lost_wakeup_example : counted 1 ≢ none
unfolding create
no_lost_wakeup_example =
    no_lost_wakeup counter counter_wakes kernel 7 1 4 pair (omega arith) (omega arith) refl 11 12 4
      0 told_run (omega arith, tt) refl refl told_some

waits : wait (interrupted ∷ interrupted ∷ []) ≡ false
unfolding wait
waits = refl

times_out : wait_for_ms (interrupted ∷ answer 0 ∷ []) ≡ some false
unfolding wait_for_ms
times_out = refl
