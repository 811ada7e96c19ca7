-- ===== src/Net/Tests.antt =====
-- The theorems of the protocol where the sender's kernel takes all at once and the receiver's brings
-- one byte at a time.
mod Server
use message_us_cld.Prelude.{
  ℕ, zero, suc, ◌≡◌, ◌<◌, refl, arith, true, false, List, [], ◌∷◌, ◌++◌, leb, if◌then◌else◌, inl,
}
use message_us_cld.Net.Socket.{Kernel, Socket, recv_loop, recv_exact}
use message_us_cld.Net.Socket.Exact.{Delivers, Accepts}
use message_us_cld.Net.Protocol.{
  max_payload_bytes, Frame, Request, Response, htonl, ntohl, send_frame, recv_frame, send_request,
  recv_request, send_response, recv_response,
}
use message_us_cld.Net.Protocol.Wire.{wire}
use message_us_cld.Net.Protocol.Receiving.{recv_frame-bad_length}
use message_us_cld.Net.Protocol.RoundTrip.{request_roundtrip, response_roundtrip}

abbrev one_if_any : ℕ → ℕ
one_if_any zero = 0
one_if_any (suc n) = 1

abbrev pub drip : Kernel
drip = record { recv = λ turn n left. one_if_any left; send = λ turn n. n }

one_if_any-pos : (left : ℕ) → 0 < left → one_if_any left ≡ 1
one_if_any-pos zero pos = absurd (omega arith)
one_if_any-pos (suc left) pos = refl

pub drip-Delivers : Delivers drip
drip-Delivers turn n left asked there =
    let one = one_if_any-pos left there in
    (omega (arith, one), omega (arith, one, asked), omega (arith, one, there))

pub drip-Accepts : Accepts drip
drip-Accepts turn n pos = (pos, omega arith)

abbrev pub quiet : Socket
quiet = record { turn = 0; incoming = []; outgoing = [] }

-- One end, with these bytes to come.
abbrev hearing : List ℕ → Socket
hearing bytes = record { turn = 0; incoming = bytes; outgoing = [] }

abbrev ping : Request
ping = record { id = 258; type = 3; payload = 7 ∷ 8 ∷ [] }

abbrev no_request : Request
no_request = record { id = 0; type = 0; payload = [] }

request_roundtrip_example :
    ((send_request drip quiet ping).0 ≡ true)
    × ((recv_request drip
          (hearing ((send_request drip quiet ping).1.outgoing ++ (9 ∷ [])))
          no_request).0
        ≡ true)
    × ((recv_request drip
          (hearing ((send_request drip quiet ping).1.outgoing ++ (9 ∷ [])))
          no_request).1
        ≡ ping)
    × ((recv_request drip
          (hearing ((send_request drip quiet ping).1.outgoing ++ (9 ∷ [])))
          no_request).2.incoming
        ≡ 9 ∷ [])
request_roundtrip_example =
    request_roundtrip drip drip drip-Accepts drip-Delivers quiet
      (hearing ((send_request drip quiet ping).1.outgoing ++ (9 ∷ []))) ping no_request (9 ∷ [])
      (omega arith) (omega arith) refl refl

abbrev busy : Response
busy = record { id = 258; status = 4; payload = [] }

-- The receiver's object still has an old answer.
abbrev old_answer : Response
old_answer = record { id = 1; status = 0; payload = 5 ∷ [] }

abbrev ping_frame : Frame
ping_frame = record { id = 258; tag = 3; payload = 7 ∷ 8 ∷ [] }

-- A length of 4 is too short for an id and a tag.
recv_frame-bad_length_example :
    ((recv_frame drip (hearing (htonl 4 ++ (1 ∷ []))) ping_frame).0 ≡ false)
    × ((recv_frame drip (hearing (htonl 4 ++ (1 ∷ []))) ping_frame).1 ≡ ping_frame)
    × ((recv_frame drip (hearing (htonl 4 ++ (1 ∷ []))) ping_frame).2.incoming ≡ 1 ∷ [])
recv_frame-bad_length_example =
    recv_frame-bad_length drip drip-Delivers (hearing (htonl 4 ++ (1 ∷ []))) ping_frame 4 (1 ∷ [])
      (omega arith) (inl (omega arith)) refl

-- The whole frame, one byte after the other.
received_ping : (recv_request drip (hearing (wire ping_frame)) no_request).1 ≡ ping
unfolding recv_request recv_frame recv_exact recv_loop htonl ntohl
received_ping = refl
