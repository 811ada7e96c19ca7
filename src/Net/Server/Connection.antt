-- ===== src/Net/Server/Connection.antt =====
-- A connection from its first request to its end (tcp_server/src/tcp_server.cpp: handle_connection).
use message_us_cld.Prelude.{
  ℕ, zero, suc, ◌%◌, ◌+◌, ◌-◌, ◌≡◌, refl, ap, ◌∙◌, arith, false, List, [], ◌∷◌, ◌++◌, length, ◌==◌,
  take, drop, word32, Bool-cases, inl, inr,
}
use message_us_cld.Net.Socket.{Kernel, Socket, recv_loop, recv_exact, send_loop, send_exact}
use message_us_cld.Net.Protocol.{Frame, htonl, ntohl, send_frame, recv_frame}

-- After the last byte of a peer that closed its side, recv returns 0.
abbrev pub Ends : Kernel → Type 0
Ends kernel = (turn n : ℕ) → kernel.recv turn n 0 ≡ 0

module _ (kernel : Kernel) where
  -- Receiving sends nothing, and sending receives nothing.
  recv_loop-outgoing :
      (fuel : ℕ) (s : Socket) (n : ℕ) → (recv_loop kernel fuel s n).2.outgoing ≡ s.outgoing
  unfolding recv_loop
  recv_loop-outgoing fuel s zero = refl
  recv_loop-outgoing zero s (suc n) = refl
  recv_loop-outgoing (suc fuel) s (suc n) =
      let r = kernel.recv s.turn (suc n) (length s.incoming) in
      let rest =
        recv_loop-outgoing fuel (record s { turn = s.turn + 1; incoming = drop r s.incoming })
          (suc n - r) in
      elim (Bool-cases (r == 0)) [
        | inl stop ↦ ground (arith, stop)
        | inr more ↦ ground (arith, more, rest)
      ]

  recv_exact-outgoing : (s : Socket) (n : ℕ) → (recv_exact kernel s n).2.outgoing ≡ s.outgoing
  unfolding recv_exact
  recv_exact-outgoing s n = recv_loop-outgoing n s n

  send_loop-incoming :
      (fuel : ℕ) (s : Socket) (bytes : List ℕ)
      → (send_loop kernel fuel s bytes).1.incoming ≡ s.incoming
  unfolding send_loop
  send_loop-incoming fuel s [] = refl
  send_loop-incoming zero s (b ∷ bs) = refl
  send_loop-incoming (suc fuel) s (b ∷ bs) =
      let r = kernel.send s.turn (length (b ∷ bs)) in
      let rest =
        send_loop-incoming fuel
          (record s { turn = s.turn + 1; outgoing = s.outgoing ++ take r (b ∷ bs) })
          (drop r (b ∷ bs)) in
      elim (Bool-cases (r == 0)) [
        | inl stop ↦ ground (arith, stop)
        | inr more ↦ ground (arith, more, rest)
      ]

  send_exact-incoming :
      (s : Socket) (bytes : List ℕ) → (send_exact kernel s bytes).1.incoming ≡ s.incoming
  unfolding send_exact
  send_exact-incoming s bytes = send_loop-incoming (length bytes) s bytes

  pub recv_frame-outgoing :
      (s : Socket) (out : Frame) → (recv_frame kernel s out).2.outgoing ≡ s.outgoing
  unfolding recv_frame
  recv_frame-outgoing s out =
      let (ok1, len, s1) = recv_exact kernel s 4 in
      let (ok2, id, s2) = recv_exact kernel s1 4 in
      let (ok3, tag, s3) = recv_exact kernel s2 1 in
      let n = ntohl len - 5 in
      let same1 = recv_exact-outgoing s 4 in
      let same2 = recv_exact-outgoing s1 4 in
      let same3 = recv_exact-outgoing s2 1 in
      let same4 = recv_exact-outgoing s3 n in ground (arith, same1, same2, same3, same4)

  pub send_frame-incoming :
      (s : Socket) (frame : Frame) → (send_frame kernel s frame).1.incoming ≡ s.incoming
  unfolding send_frame
  send_frame-incoming s frame =
      let s1 = (send_exact kernel s (htonl ((5 + length frame.payload) % word32))).1 in
      let s2 = (send_exact kernel s1 (htonl frame.id)).1 in
      let s3 = (send_exact kernel s2 (frame.tag ∷ [])).1 in
      let same1 = send_exact-incoming s (htonl ((5 + length frame.payload) % word32)) in
      let same2 = send_exact-incoming s1 (htonl frame.id) in
      let same3 = send_exact-incoming s2 (frame.tag ∷ []) in
      let same4 = send_exact-incoming s3 frame.payload in ground (arith, same1, same2, same3, same4)

  -- Nothing to come: no request is received.
  pub recv_frame-ended :
      Ends kernel
      → (s : Socket) (out : Frame) → s.incoming ≡ []
      → ((recv_frame kernel s out).0 ≡ false) × ((recv_frame kernel s out).2.incoming ≡ [])
  unfolding recv_frame recv_exact recv_loop
  recv_frame-ended ends s out empty =
      let closed : kernel.recv s.turn 4 (length s.incoming) ≡ 0 =
        ap (λ i. kernel.recv s.turn 4 (length i)) empty ∙ ends s.turn 4 in
      (ground (arith, closed, empty), ground (arith, closed, empty))
