-- ===== src/Net/Tests/Server.antt =====
-- The theorems of the server on two requests, and those of the pool on two workers and two tasks.
use message_us_cld.Prelude.{
  suc, false, ◌+◌, ◌≤◌, ◌≡◌, refl, arith, true, List, [], ◌∷◌, map, some, none, length, ◌⊎◌,
}
use message_us_cld.Net.Socket.{Socket}
use message_us_cld.Net.Protocol.{Request, Response}
use message_us_cld.Net.Tests.{drip, drip-Delivers, drip-Accepts, quiet}
use message_us_cld.Net.Server.{
  handle_connection, send_all, recv_all, stop_pipe, server_fd, Polled, interrupted, ready,
  wait_loop,
}
use message_us_cld.Net.Server.Connection.{Ends}
use message_us_cld.Net.Server.Serving.{AllFit}
use message_us_cld.Net.Server.Conversation.{conversation}
use message_us_cld.Net.Server.Accepting.{
  all_events, has_stop, connections, AllTimed, wait_loop-connections,
}
use message_us_cld.Net.ThreadPool.{
  waits, left, runs, ThreadPool, make, Action, submits, shuts_down, notifies_one, notifies_all,
  sleeps, shutdown, notify_one, wakes, returns, wake, step, run, joined,
}
use message_us_cld.Net.ThreadPool.Order.{submitted}
use message_us_cld.Net.ThreadPool.Shutdown.{CanGo, run-CanGo}
use message_us_cld.Net.ThreadPool.Work.{work}
use message_us_cld.Net.ThreadPool.Finished.{run-joined}

drip-Ends : Ends drip
drip-Ends turn n = refl

abbrev echo : Request → Response
echo req = record { id = req.id; status = 0; payload = req.payload }

abbrev two_requests : List Request
two_requests =
    record { id = 7; type = 1; payload = 65 ∷ 66 ∷ [] }
    ∷ record { id = 8; type = 2; payload = [] }
    ∷ []

two_requests-AllFit : AllFit echo two_requests
two_requests-AllFit = (
  (omega arith, omega arith),
  (omega arith, omega arith),
  ((omega arith, omega arith), (omega arith, omega arith), tt),
)

conversation_example :
    ((send_all drip quiet two_requests).0 ≡ true)
    × (u : Socket) × (handle_connection drip echo
          (suc (length two_requests))
          (record quiet { incoming = (send_all drip quiet two_requests).1.outgoing })
        ≡ some u)
    × (recv_all drip (record quiet { incoming = u.outgoing }) (length two_requests)
        ≡ map echo two_requests)
conversation_example =
    conversation drip drip drip-Accepts drip-Delivers drip-Accepts drip-Delivers drip-Ends echo
      two_requests quiet quiet quiet two_requests-AllFit refl refl

abbrev polls : List Polled
polls =
    ready (server_fd (some 5) ∷ server_fd none ∷ [])
    ∷ interrupted
    ∷ ready (server_fd (some 6) ∷ stop_pipe ∷ server_fd (some 9) ∷ [])
    ∷ []

wait_loop-connections_example :
    ((wait_loop 30000 polls).0 ≡ has_stop (all_events polls))
    × (map (λ a. a.client_fd) (wait_loop 30000 polls).1 ≡ connections (all_events polls))
    × AllTimed 30000 (wait_loop 30000 polls).1
wait_loop-connections_example = wait_loop-connections 30000 polls

polls-connections : connections (all_events polls) ≡ 5 ∷ 6 ∷ []
polls-connections = refl

-- Two workers, two tasks: the second worker sleeps until the second submit, whose task is still in the
-- queue when shutdown is called.
abbrev two_tasks : List Action
two_tasks =
    submits 5
    ∷ wakes 0
    ∷ wakes 1
    ∷ notifies_one 1
    ∷ submits 6
    ∷ shuts_down
    ∷ notifies_one 1
    ∷ notifies_all
    ∷ wakes 1
    ∷ returns 1
    ∷ wakes 1
    ∷ returns 0
    ∷ wakes 0
    ∷ []

abbrev finished : ThreadPool
finished = record { workers = left ∷ left ∷ []; tasks = []; stop = true }

run-joined_example : (5 ∷ 6 ∷ [] ≡ submitted two_tasks) × (finished.tasks ≡ [])
unfolding run step wake notify_one make joined
run-joined_example = run-joined 2 two_tasks (5 ∷ 6 ∷ []) finished (omega arith) refl refl refl

-- The first worker sleeps when shutdown is called.
abbrev before_shutdown : ThreadPool
before_shutdown = record { workers = sleeps ∷ runs 5 ∷ []; tasks = []; stop = false }

abbrev half_done : ThreadPool
half_done = record { workers = left ∷ waits ∷ []; tasks = []; stop = true }

run-CanGo_example :
    (length (returns 1 ∷ []) + length (wakes 0 ∷ []) + work half_done ≤ work before_shutdown)
    × ((joined half_done.workers ≡ true) ⊎ CanGo half_done)
unfolding run step wake shutdown
run-CanGo_example =
    run-CanGo (returns 1 ∷ []) (wakes 0 ∷ []) before_shutdown half_done [] refl refl refl
