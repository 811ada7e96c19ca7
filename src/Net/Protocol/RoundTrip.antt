-- ===== src/Net/Protocol/RoundTrip.antt =====
-- What one side sends, the other receives, however the kernel cuts the stream.
use message_us_cld.Prelude.{ℕ, ◌≤◌, ◌<◌, ◌≡◌, ap, ◌∙◌, arith, true, List, [], ◌++◌, length, word32}
use message_us_cld.Net.Socket.{Kernel, Socket}
use message_us_cld.Net.Socket.Exact.{Delivers, Accepts}
use message_us_cld.Net.Protocol.{
  max_payload_bytes, Frame, Request, Response, send_frame, recv_frame, send_request, recv_request,
  send_response, recv_response,
}
use message_us_cld.Net.Protocol.Sending.{send_frame-all}
use message_us_cld.Net.Protocol.Receiving.{recv_frame-all}

frame_roundtrip :
    (sender receiver : Kernel)
    → Accepts sender
    → Delivers receiver
    → (a b : Socket) (frame out : Frame) (later : List ℕ) → frame.id < word32
    → length frame.payload ≤ max_payload_bytes
    → a.outgoing ≡ []
    → b.incoming ≡ (send_frame sender a frame).1.outgoing ++ later
    → ((send_frame sender a frame).0 ≡ true)
      × ((recv_frame receiver b out).0 ≡ true)
      × ((recv_frame receiver b out).1 ≡ frame)
      × ((recv_frame receiver b out).2.incoming ≡ later)
frame_roundtrip sender receiver acc del a b frame out later range small none stream =
    let (ok, sent) = send_frame-all sender acc a frame in
    let (got, same, rest) =
      recv_frame-all receiver del b out frame later range small
        (stream ∙ ap (λ o. o ++ later) (sent ∙ ground (arith, small, none))) in
    (ok ∙ ground (arith, small), got, same, rest)

-- A request with an id below 2^32 and a payload within the limit, sent on a fresh connection and
-- received from one whose stream starts with the bytes sent: both calls succeed, the request is the
-- same, whatever was in the receiver's object, and the rest of the stream is left. The kernels may cut
-- the bytes into pieces of any sizes, as long as each call moves something.
pub request_roundtrip :
    (sender receiver : Kernel)
    → Accepts sender
    → Delivers receiver
    → (a b : Socket) (req out : Request) (later : List ℕ) → req.id < word32
    → length req.payload ≤ max_payload_bytes
    → a.outgoing ≡ []
    → b.incoming ≡ (send_request sender a req).1.outgoing ++ later
    → ((send_request sender a req).0 ≡ true)
      × ((recv_request receiver b out).0 ≡ true)
      × ((recv_request receiver b out).1 ≡ req)
      × ((recv_request receiver b out).2.incoming ≡ later)
unfolding send_request recv_request
request_roundtrip sender receiver acc del a b req out later range small none stream =
    let (ok, got, same, rest) =
      frame_roundtrip sender receiver acc del a b
        (record { id = req.id; tag = req.type; payload = req.payload })
        (record { id = out.id; tag = out.type; payload = out.payload }) later range small none
        stream in
    (ok, got, ap (λ f. record { id = f.id; type = f.tag; payload = f.payload }) same, rest)

-- A response with an id below 2^32, any status byte and a payload within the limit, sent on a fresh
-- connection and received from one whose stream starts with the bytes sent: both calls succeed, the
-- response is the same, and the rest of the stream is left, under the same terms for the kernels.
pub response_roundtrip :
    (sender receiver : Kernel)
    → Accepts sender
    → Delivers receiver
    → (a b : Socket) (resp out : Response) (later : List ℕ) → resp.id < word32
    → length resp.payload ≤ max_payload_bytes
    → a.outgoing ≡ []
    → b.incoming ≡ (send_response sender a resp).1.outgoing ++ later
    → ((send_response sender a resp).0 ≡ true)
      × ((recv_response receiver b out).0 ≡ true)
      × ((recv_response receiver b out).1 ≡ resp)
      × ((recv_response receiver b out).2.incoming ≡ later)
unfolding send_response recv_response
response_roundtrip sender receiver acc del a b resp out later range small none stream =
    let (ok, got, same, rest) =
      frame_roundtrip sender receiver acc del a b
        (record { id = resp.id; tag = resp.status; payload = resp.payload })
        (record { id = out.id; tag = out.status; payload = out.payload }) later range small none
        stream in
    (ok, got, ap (λ f. record { id = f.id; status = f.tag; payload = f.payload }) same, rest)
