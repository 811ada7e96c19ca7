-- ===== src/Net/Client.antt =====
-- tcp_server/src/tcp_client.cpp: the constructor of TcpClient, and what it and the constructor of
-- TcpServer leave open when they throw.
use message_us_cld.Prelude.{ℕ, ◌≡◌, arith, Bool, not, if◌then◌else◌, Outcome, done, threw, ◌⊎◌}
use message_us_cld.Net.Server
use message_us_cld.Net.Server.{make_server_socket}

-- Whether getaddrinfo, socket and connect succeed.
pub record Setup : Type 0 where
  pub getaddrinfo : Bool
  pub socket : Bool
  pub connect : Bool

-- The outcome, the descriptors that are open, and the address lists that are not freed.
unfoldable pub construct : Setup → Outcome (Unit {0}) × ℕ × ℕ
construct calls =
    if not calls.getaddrinfo
    then (threw, 0, 0)
    else if not calls.socket
    then (threw, 0, 0)
    else if not calls.connect
    then (threw, 0, 0)
    else (done tt, 1, 0)

-- A constructor that throws leaves nothing open, and the others leave the connection, or the listening
-- socket and both ends of the pipe.
pub construct-open :
    (calls : Setup) (server : Server.Setup)
    → ((construct calls ≡ (done tt, 1, 0)) ⊎ (construct calls ≡ (threw, 0, 0)))
      × ((Server.construct server ≡ (done tt, 3)) ⊎ (Server.construct server ≡ (threw, 0)))
unfolding construct make_server_socket Server.construct
construct-open calls server = (client calls, listener server)
  where
    client :
        (calls : Setup) → (construct calls ≡ (done tt, 1, 0)) ⊎ (construct calls ≡ (threw, 0, 0))
    client calls = ground arith

    listener :
        (server : Server.Setup)
        → (Server.construct server ≡ (done tt, 3)) ⊎ (Server.construct server ≡ (threw, 0))
    listener server = ground arith
