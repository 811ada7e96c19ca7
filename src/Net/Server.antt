-- ===== src/Net/Server.antt =====
-- tcp_server/src/tcp_server.cpp: TcpServer, and the calls of TcpClient (tcp_server/src/tcp_client.hpp
-- and tcp_client.cpp). What the operating system answers is a parameter, and so is the handler.
pub mod Connection
pub mod Serving
pub mod Conversation
pub mod Accepting
use message_us_cld.Prelude.{
  ℕ, zero, suc, ◌/◌, ◌%◌, ◌*◌, Bool, true, false, List, [], ◌∷◌, ◌++◌, Option, some, none, ltb, not,
  if◌then◌else◌, Outcome, done, threw, aborted, ◌+◌,
}
use message_us_cld.Net.Socket.{Kernel, Socket}
use message_us_cld.Net.Protocol.{
  Request, Response, recv_request, send_request, recv_response, send_response,
}

-- An object before anything was received into it.
abbrev pub no_request : Request
no_request = record { id = 0; type = 0; payload = [] }

abbrev pub no_response : Response
no_response = record { id = 0; status = 0; payload = [] }

-- The socket when the connection is closed, after at most as many rounds as the fuel.
unfoldable pub handle_connection : Kernel → (Request → Response) → ℕ → Socket → Option Socket
handle_connection kernel handler zero s = none
handle_connection kernel handler (suc fuel) s =
    let (ok, req, s1) = recv_request kernel s no_request in
    let (sent, s2) = send_response kernel s1 (handler req) in
    let rest = handle_connection kernel handler fuel s2 in
    if not ok then some s1 else if not sent then some s2 else rest

-- Whether the calls that set up the listening socket and the pipe succeed.
pub record Setup : Type 0 where
  pub socket : Bool
  pub bind : Bool
  pub listen : Bool
  pub pipe : Bool

-- The listening socket, and how many descriptors the call leaves open.
unfoldable pub make_server_socket : Setup → Outcome (Unit {0}) × ℕ
make_server_socket calls =
    if not calls.socket
    then (threw, 0)
    else if not calls.bind
    then (threw, 0)
    else if not calls.listen
    then (threw, 0)
    else (done tt, 1)

unfoldable pub construct : Setup → Outcome (Unit {0}) × ℕ
construct calls =
    let (made, open_fds) = make_server_socket calls in
    elim made [
      | done u ↦ (if not calls.pipe then (threw, 0) else (done tt, open_fds + 2))
      | threw ↦ (threw, open_fds)
      | aborted ↦ (aborted, open_fds)
    ]

-- What epoll reports: the pipe of stop, or the listening socket with what accept4 returns for it.
pub data Event : Type 0 where
  stop_pipe : Event
  server_fd : Option ℕ → Event

pub data Polled : Type 0 where
  interrupted failed : Polled
  ready : List Event → Polled

-- A connection that was submitted to the pool, with its receive timeout in seconds and microseconds.
pub record Accepted : Type 0 where
  pub client_fd : ℕ
  pub recv_timeout : Option (ℕ × ℕ)

unfoldable pub accepted : ℕ → ℕ → Accepted
accepted recv_timeout_ms fd = record {
  client_fd = fd;
  recv_timeout =
      if ltb 0 recv_timeout_ms
      then some (recv_timeout_ms / 1000, recv_timeout_ms % 1000 * 1000)
      else none;
}

-- The loop over the events of a wait: whether the stop was among them, and what was submitted before.
unfoldable pub take_events : ℕ → List Event → Bool × List Accepted
take_events ms [] = (false, [])
take_events ms (stop_pipe ∷ es) = (true, [])
take_events ms (server_fd none ∷ es) = take_events ms es
take_events ms (server_fd (some fd) ∷ es) =
    let (stopped, rest) = take_events ms es in (stopped, accepted ms fd ∷ rest)

-- accept_loop over what each wait gives: whether it returned, and what it submitted. A list that is
-- over leaves the call waiting.
unfoldable pub wait_loop : ℕ → List Polled → Bool × List Accepted
wait_loop ms [] = (false, [])
wait_loop ms (interrupted ∷ ps) = wait_loop ms ps
wait_loop ms (failed ∷ ps) = (true, [])
wait_loop ms (ready es ∷ ps) =
    let (stopped, first) = take_events ms es in
    let (returned, rest) = wait_loop ms ps in
    if stopped then (true, first) else (returned, first ++ rest)

unfoldable pub accept_loop : ℕ → Bool → List Polled → Outcome (Bool × List Accepted)
accept_loop ms epoll_create ps = if not epoll_create then threw else done (wait_loop ms ps)

-- Calls of TcpClient::send, and of TcpClient::recv, one after the other.
unfoldable pub send_all : Kernel → Socket → List Request → Bool × Socket
send_all kernel s [] = (true, s)
send_all kernel s (req ∷ reqs) =
    let (ok, s1) = send_request kernel s req in
    let (rest, s2) = send_all kernel s1 reqs in if ok then (rest, s2) else (false, s1)

unfoldable pub recv_all : Kernel → Socket → ℕ → List Response
recv_all kernel s zero = []
recv_all kernel s (suc n) =
    let (ok, resp, s1) = recv_response kernel s no_response in
    let rest = recv_all kernel s1 n in if ok then resp ∷ rest else []
