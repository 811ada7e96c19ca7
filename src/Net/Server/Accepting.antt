-- ===== src/Net/Server/Accepting.antt =====
-- Which connections TcpServer::accept_loop submits (tcp_server/src/tcp_server.cpp).
use native.Mathlib.Decide.{dec_lt}
use message_us_cld.Prelude.{
  ◌+◌, ◌*◌, ◌/◌, ◌%◌, ◌<◌, ◌⊎◌, sym, ◌∙◌, subst, ℕ, ◌≡◌, refl, ap, arith, Bool, true, false, List,
  [], ◌∷◌, ◌++◌, map, some, none, if◌then◌else◌, Bool-cases, inl, inr,
}
use message_us_cld.Net.Server.{
  Event, stop_pipe, server_fd, Polled, interrupted, failed, ready, Accepted, accepted, take_events,
  wait_loop,
}

-- What all waits report, one after the other; a wait that fails for good ends the loop as a stop does.
abbrev pub all_events : List Polled → List Event
all_events [] = []
all_events (interrupted ∷ ps) = all_events ps
all_events (failed ∷ ps) = stop_pipe ∷ []
all_events (ready es ∷ ps) = es ++ all_events ps

abbrev pub has_stop : List Event → Bool
has_stop [] = false
has_stop (stop_pipe ∷ es) = true
has_stop (server_fd fd ∷ es) = has_stop es

-- The connections that accept4 returns before the first stop.
abbrev pub connections : List Event → List ℕ
connections [] = []
connections (stop_pipe ∷ es) = []
connections (server_fd none ∷ es) = connections es
connections (server_fd (some fd) ∷ es) = fd ∷ connections es

abbrev Taken : ℕ → List Event → Bool × List Accepted → Type 0
Taken ms es (stopped, taken) =
    (stopped ≡ has_stop es) × (taken ≡ map (accepted ms) (connections es))

take_events-Taken : (ms : ℕ) (es : List Event) → Taken ms es (take_events ms es)
unfolding take_events
take_events-Taken ms [] = (refl, refl)
take_events-Taken ms (stop_pipe ∷ es) = (refl, refl)
take_events-Taken ms (server_fd none ∷ es) = take_events-Taken ms es
take_events-Taken ms (server_fd (some fd) ∷ es) =
    let (stopped, taken) = take_events-Taken ms es in
    (stopped, ap (λ xs. accepted ms fd ∷ xs) taken)

has_stop-append :
    (es fs : List Event) → has_stop (es ++ fs) ≡ (if has_stop es then true else has_stop fs)
has_stop-append [] fs = refl
has_stop-append (stop_pipe ∷ es) fs = refl
has_stop-append (server_fd fd ∷ es) fs = has_stop-append es fs

connections-append :
    (ms : ℕ) (es fs : List Event)
    → map (accepted ms) (connections (es ++ fs)) ≡ (
        if has_stop es
        then map (accepted ms) (connections es)
        else map (accepted ms) (connections es) ++ map (accepted ms) (connections fs))
connections-append ms [] fs = refl
connections-append ms (stop_pipe ∷ es) fs = refl
connections-append ms (server_fd none ∷ es) fs = connections-append ms es fs
connections-append ms (server_fd (some fd) ∷ es) fs =
    let rest = connections-append ms es fs in
    elim (Bool-cases (has_stop es)) [
      | inl stops ↦ ground (arith, stops, rest)
      | inr goes ↦ ground (arith, goes, rest)
    ]

wait_loop-accepted :
    (ms : ℕ) (ps : List Polled)
    → ((wait_loop ms ps).0 ≡ has_stop (all_events ps))
      × ((wait_loop ms ps).1 ≡ map (accepted ms) (connections (all_events ps)))
unfolding wait_loop
wait_loop-accepted ms [] = (refl, refl)
wait_loop-accepted ms (interrupted ∷ ps) = wait_loop-accepted ms ps
wait_loop-accepted ms (failed ∷ ps) = (refl, refl)
wait_loop-accepted ms (ready es ∷ ps) =
    let (stopped, taken) = take_events-Taken ms es in
    let (returned, rest) = wait_loop-accepted ms ps in
    let both = has_stop-append es (all_events ps) in
    let all = connections-append ms es (all_events ps) in
    elim (Bool-cases (has_stop es)) [
      | inl stops ↦
          (ground (arith, stopped, stops, both), ground (arith, stopped, stops, taken, all))
      | inr goes ↦ (
        ground (arith, stopped, goes, returned, both),
        ground (arith, stopped, goes, taken, rest, all),
      )
    ]

-- The receive timeout that a connection has got: none for 0 ms, and otherwise the same time in
-- seconds and fewer than a million microseconds.
abbrev pub Timed : ℕ → Accepted → Type 0
Timed ms a =
    ((ms ≡ 0) × (a.recv_timeout ≡ none))
    ⊎ ((sec usec : ℕ) × (a.recv_timeout ≡ some (sec, usec))
        × (0 < ms)
        × (sec * 1000000 + usec ≡ ms * 1000)
        × (usec < 1000000))

abbrev pub AllTimed : ℕ → List Accepted → Type 0
AllTimed ms [] = Unit {0}
AllTimed ms (a ∷ as_left) = Timed ms a × AllTimed ms as_left

accepted-Timed : (ms fd : ℕ) → Timed ms (accepted ms fd)
unfolding accepted
accepted-Timed ms fd = elim (dec_lt 0 ms) [
  | yes pos ↦ inr (ms / 1000, ms % 1000 * 1000, ground (arith, pos), pos, omega arith, omega arith)
  | no zero_ms ↦ inl (omega (arith, zero_ms), ground (arith, zero_ms))
]

accepted-AllTimed : (ms : ℕ) (fds : List ℕ) → AllTimed ms (map (accepted ms) fds)
accepted-AllTimed ms [] = tt
accepted-AllTimed ms (fd ∷ fds) = (accepted-Timed ms fd, accepted-AllTimed ms fds)

accepted-fds : (ms : ℕ) (fds : List ℕ) → map (λ a. a.client_fd) (map (accepted ms) fds) ≡ fds
unfolding accepted
accepted-fds ms [] = refl
accepted-fds ms (fd ∷ fds) = ap (λ xs. fd ∷ xs) (accepted-fds ms fds)

-- Whatever epoll_wait reports, and in however many waits: accept_loop returns exactly when a stop is
-- among the events or a wait fails for good, and the descriptors that it submits to the pool are those
-- that accept4 returned before that, each once and in order, and no others. Each has the receive
-- timeout set: none when it is 0 ms, and otherwise the same time in seconds and fewer than a million
-- microseconds.
pub wait_loop-connections :
    (ms : ℕ) (ps : List Polled)
    → ((wait_loop ms ps).0 ≡ has_stop (all_events ps))
      × (map (λ a. a.client_fd) (wait_loop ms ps).1 ≡ connections (all_events ps))
      × AllTimed ms (wait_loop ms ps).1
wait_loop-connections ms ps =
    let (returned, taken) = wait_loop-accepted ms ps in
    let fds = connections (all_events ps) in
    (
      returned,
      ap (map (λ a. a.client_fd)) taken ∙ accepted-fds ms fds,
      subst (AllTimed ms) (sym taken) (accepted-AllTimed ms fds),
    )
