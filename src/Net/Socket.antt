-- ===== src/Net/Socket.antt =====
-- tcp_server/src/protocol.cpp: recv_exact and send_exact, the loops over recv and send. What the
-- kernel answers is a parameter.
pub mod Exact
use message_us_cld.Prelude.{
  ℕ, zero, suc, ◌+◌, ◌-◌, Bool, true, false, List, [], ◌∷◌, ◌++◌, ◌==◌, if◌then◌else◌, length, take,
  drop,
}

-- How many bytes a call of recv or send moves, by the number of the call, the bytes asked for and,
-- for recv, those that are still to come; 0 for a closed connection and for an error.
pub record Kernel : Type 0 where
  pub recv : ℕ → ℕ → ℕ → ℕ
  pub send : ℕ → ℕ → ℕ

-- One end of a connection: its calls so far, the bytes that its peer sends and it has not read, and
-- those it sent.
pub record Socket : Type 0 where
  pub turn : ℕ
  pub incoming : List ℕ
  pub outgoing : List ℕ

-- The loop of recv_exact for `n` remaining bytes: whether all came, and what was put in the buffer.
-- A round that goes on moves at least a byte, so that `n` rounds are enough.
unfoldable pub recv_loop : Kernel → ℕ → Socket → ℕ → Bool × List ℕ × Socket
recv_loop kernel fuel s zero = (true, [], s)
recv_loop kernel zero s (suc n) = (false, [], s)
recv_loop kernel (suc fuel) s (suc n) =
    let r = kernel.recv s.turn (suc n) (length s.incoming) in
    let (ok, bytes, s') =
      recv_loop kernel fuel (record s { turn = s.turn + 1; incoming = drop r s.incoming })
        (suc n - r) in
    if r == 0
    then (false, [], record s { turn = s.turn + 1 })
    else (ok, take r s.incoming ++ bytes, s')

unfoldable pub recv_exact : Kernel → Socket → ℕ → Bool × List ℕ × Socket
recv_exact kernel s n = recv_loop kernel n s n

-- The loop of send_exact for the remaining bytes.
unfoldable pub send_loop : Kernel → ℕ → Socket → List ℕ → Bool × Socket
send_loop kernel fuel s [] = (true, s)
send_loop kernel zero s (b ∷ bs) = (false, s)
send_loop kernel (suc fuel) s (b ∷ bs) =
    let r = kernel.send s.turn (length (b ∷ bs)) in
    let rest =
      send_loop kernel fuel
        (record s { turn = s.turn + 1; outgoing = s.outgoing ++ take r (b ∷ bs) })
        (drop r (b ∷ bs)) in
    if r == 0 then (false, record s { turn = s.turn + 1 }) else rest

unfoldable pub send_exact : Kernel → Socket → List ℕ → Bool × Socket
send_exact kernel s bytes = send_loop kernel (length bytes) s bytes
