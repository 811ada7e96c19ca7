-- ===== src/Bus/Notifier.antt =====
-- spsc_bus/spsc_bus.hpp: Notifier, beside a producer that notifies after each push that succeeded and a
-- consumer that waits and then pops until try_pop returns 0, in any interleaving with the steps
-- of try_push and try_pop. The eventfd is an interface: what a write and a read do to it.
pub mod Steps
pub mod Wakes
use message_us_cld.Prelude.{
  ℕ, ◌<◌, ◌≡◌, ◌==◌, if◌then◌else◌, Bool, true, false, List, [], ◌∷◌, Option, none, some, length,
}
use message_us_cld.Bus.Threads
use message_us_cld.Bus.Threads.{
  System, Popping, waiting, ready, copied, reserves, scribbles, fills, publishes, checks, copies,
  releases,
}

-- `read` is `none` where the call blocks.
pub record Eventfd (S : Type 0) : Type 0 where
  pub write : S → S
  pub read : S → Option S

-- What a call of the system answers: a result, EINTR or another error.
pub data Reply : Type 0 where
  answer : ℕ → Reply
  interrupted failed : Reply

-- Whether the call is over after the replies; a call that is interrupted goes on.
unfoldable pub wait : List Reply → Bool
wait [] = false
wait (interrupted ∷ replies) = wait replies
wait (failed ∷ replies) = true
wait (answer n ∷ replies) = true

-- The replies of poll, each after a whole `ms` at most. `none`: the call still waits.
unfoldable pub wait_for_ms : List Reply → Option Bool
wait_for_ms [] = none
wait_for_ms (interrupted ∷ replies) = wait_for_ms replies
wait_for_ms (failed ∷ replies) = some false
wait_for_ms (answer n ∷ replies) = some (if n == 0 then false else true)

-- `telling` is between the end of a push and the end of its `notify`, `sleeping` is inside `wait`.
pub record Notified (S : Type 0) : Type 0 where
  pub bus : System
  pub fd : S
  pub telling : Bool
  pub sleeping : Bool

-- A step of the producer.
abbrev pub Producing : {buf_size : ℕ} {s t : System} → Threads.Step buf_size s t → Type 0
Producing (reserves msg e eq) = Unit
Producing (scribbles msg v e eq) = Unit
Producing (fills msg e eq) = Unit
Producing (publishes msg e eq) = Unit
Producing (checks e eq) = ⊥
Producing (copies e eq) = ⊥
Producing (releases size bytes e eq) = ⊥

abbrev pub Draining : {buf_size : ℕ} {s t : System} → Threads.Step buf_size s t → Type 0
Draining (reserves msg e eq) = ⊥
Draining (scribbles msg v e eq) = ⊥
Draining (fills msg e eq) = ⊥
Draining (publishes msg e eq) = ⊥
Draining (checks e eq) = Unit
Draining (copies e eq) = Unit
Draining (releases size bytes e eq) = Unit

-- The push is over, and succeeded.
abbrev pub published : {buf_size : ℕ} {s t : System} → Threads.Step buf_size s t → Bool
published (reserves msg e eq) = false
published (scribbles msg v e eq) = false
published (fills msg e eq) = false
published (publishes msg e eq) = true
published (checks e eq) = false
published (copies e eq) = false
published (releases size bytes e eq) = false

abbrev pub found_nothing : Popping → Bool
found_nothing waiting = true
found_nothing ready = false
found_nothing (copied size bytes) = false

-- The pop is over, and returned 0.
abbrev pub ended : {buf_size : ℕ} {s t : System} → Threads.Step buf_size s t → Bool
ended (reserves msg e eq) = false
ended (scribbles msg v e eq) = false
ended (fills msg e eq) = false
ended (publishes msg e eq) = false
ended {t = t} (checks e eq) = found_nothing t.popping
ended (copies e eq) = false
ended (releases size bytes e eq) = size == 0

pub data Step {S : Type 0} (io : Eventfd S) (buf_size : ℕ) (s t : Notified S) : Type 0 where
  pushes :
      {b : System} (step : Threads.Step buf_size s.bus b)
      → Producing step
      → s.telling ≡ false
      → t ≡ record s { bus = b; telling = published step }
      → Step io buf_size s t
  notifies :
      s.telling ≡ true → t ≡ record s { fd = io.write s.fd; telling = false } → Step io buf_size s t
  pops :
      {b : System} (step : Threads.Step buf_size s.bus b)
      → Draining step
      → s.sleeping ≡ false
      → t ≡ record s { bus = b; sleeping = ended step }
      → Step io buf_size s t
  wakes :
      (f : S)
      → s.sleeping ≡ true
      → io.read s.fd ≡ some f
      → t ≡ record s { fd = f; sleeping = false }
      → Step io buf_size s t

pub data Reach {S : Type 0} (io : Eventfd S) (buf_size : ℕ) (s : Notified S)
    : Notified S → Type 0 where
  here : Reach io buf_size s s
  next : {t u : Notified S} → Reach io buf_size s t → Step io buf_size t u → Reach io buf_size s u
