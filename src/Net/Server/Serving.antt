-- ===== src/Net/Server/Serving.antt =====
-- A connection whose peer sends requests and then closes its side (tcp_server/src/tcp_server.cpp:
-- handle_connection).
use message_us_cld.Prelude.{
  ℕ, suc, ◌≤◌, ◌<◌, ◌≡◌, sym, ap, ◌∙◌, subst, arith, true, List, [], ◌∷◌, ◌++◌, some, append-nil,
  append_assoc, length, word32,
}
use message_us_cld.Net.Socket.{Kernel, Socket}
use message_us_cld.Net.Socket.Exact.{Delivers, Accepts}
use message_us_cld.Net.Protocol.{
  max_payload_bytes, Frame, Request, Response, send_frame, recv_frame, recv_request, send_response,
}
use message_us_cld.Net.Protocol.Wire.{wire}
use message_us_cld.Net.Protocol.Sending.{send_frame-all}
use message_us_cld.Net.Protocol.Receiving.{recv_frame-all}
use message_us_cld.Net.Server.{no_request, handle_connection}
use message_us_cld.Net.Server.Connection.{
  Ends, recv_frame-outgoing, send_frame-incoming, recv_frame-ended,
}

abbrev pub request_frame : Request → Frame
request_frame req = record { id = req.id; tag = req.type; payload = req.payload }

abbrev pub response_frame : Response → Frame
response_frame resp = record { id = resp.id; tag = resp.status; payload = resp.payload }

-- The frame's id is a uint32_t, and its payload is within the limit.
abbrev pub Fits : Frame → Type 0
Fits frame = (frame.id < word32) × (length frame.payload ≤ max_payload_bytes)

-- All frames one after the other.
abbrev pub stream : List Frame → List ℕ
stream [] = []
stream (frame ∷ frames) = wire frame ++ stream frames

abbrev pub AllFit : (Request → Response) → List Request → Type 0
AllFit handler [] = Unit {0}
AllFit handler (req ∷ reqs) =
    Fits (request_frame req) × Fits (response_frame (handler req)) × AllFit handler reqs

abbrev pub request_frames : List Request → List Frame
request_frames [] = []
request_frames (req ∷ reqs) = request_frame req ∷ request_frames reqs

abbrev pub response_frames : (Request → Response) → List Request → List Frame
response_frames handler [] = []
response_frames handler (req ∷ reqs) = response_frame (handler req) ∷ response_frames handler reqs

module _ (kernel : Kernel) where
  pub send_frame-goes :
      Accepts kernel
      → (s : Socket) (frame : Frame) → Fits frame
      → ((send_frame kernel s frame).0 ≡ true)
        × ((send_frame kernel s frame).1.outgoing ≡ s.outgoing ++ wire frame)
  send_frame-goes acc s frame (id, small) =
      let (ok, out) = send_frame-all kernel acc s frame in
      (ok ∙ ground (arith, small), out ∙ ground (arith, small))

  module _ (del : Delivers kernel) (acc : Accepts kernel) (handler : Request → Response) where
    -- What a round does with the next request: it is received, and answered.
    abbrev Answers : Socket → Request → List ℕ → Socket → Type 0
    Answers s req later s2 =
        (s2.incoming ≡ later)
        × (s2.outgoing ≡ s.outgoing ++ wire (response_frame (handler req)))
        × ((fuel : ℕ)
            → handle_connection kernel handler (suc fuel) s
              ≡ handle_connection kernel handler fuel s2)

    answers :
        (s : Socket) (req : Request) (later : List ℕ)
        → Fits (request_frame req)
        → Fits (response_frame (handler req))
        → s.incoming ≡ wire (request_frame req) ++ later
        → (s2 : Socket) × Answers s req later s2
    unfolding handle_connection recv_request send_response
    answers s req later fits_req fits_resp coming =
        let (ok, same, rest) =
          recv_frame-all kernel del s (request_frame no_request) (request_frame req) later
            fits_req.0 fits_req.1 coming in
        let (got, frame, s1) = recv_frame kernel s (request_frame no_request) in
        let req' : Request = record { id = frame.id; type = frame.tag; payload = frame.payload } in
        let same_req : req' ≡ req =
          ap (λ f. record { id = f.id; type = f.tag; payload = f.payload }) same in
        let (sent, out) =
          send_frame-goes acc s1 (response_frame (handler req'))
            (subst (λ r. Fits (response_frame (handler r))) (sym same_req) fits_resp) in
        (
          (send_frame kernel s1 (response_frame (handler req'))).1,
          (
            send_frame-incoming kernel s1 (response_frame (handler req')) ∙ rest,
            out
                ∙ ap (λ o. o ++ wire (response_frame (handler req')))
                    (recv_frame-outgoing kernel s (request_frame no_request))
                ∙ ap (λ r. s.outgoing ++ wire (response_frame (handler r))) same_req,
            λ fuel. ground (arith, ok, sent),
          ),
        )

    abbrev pub Served : Socket → List Request → Type 0
    Served s reqs =
        (u : Socket) × (handle_connection kernel handler (suc (length reqs)) s ≡ some u)
        × (u.outgoing ≡ s.outgoing ++ stream (response_frames handler reqs))
        × (u.incoming ≡ [])

    last : Ends kernel → (s : Socket) → s.incoming ≡ [] → Served s []
    unfolding handle_connection recv_request
    last ends s coming =
        let (stop, over) = recv_frame-ended kernel ends s (request_frame no_request) coming in
        let u = (recv_frame kernel s (request_frame no_request)).2 in
        (
          u,
          ground (arith, stop),
          recv_frame-outgoing kernel s (request_frame no_request) ∙ sym (append-nil s.outgoing),
          over,
        )

    pub handle_connection-Served :
        Ends kernel
        → (reqs : List Request) (s : Socket) → AllFit handler reqs
        → s.incoming ≡ stream (request_frames reqs)
        → Served s reqs
    handle_connection-Served ends [] s fit coming = last ends s coming
    handle_connection-Served ends (req ∷ reqs) s (fits_req, fits_resp, fit) coming =
        let (s2, (later, out, goes)) =
          answers s req (stream (request_frames reqs)) fits_req fits_resp coming in
        let (u, run, sent, over) = handle_connection-Served ends reqs s2 fit later in
        (
          u,
          goes (suc (length reqs)) ∙ run,
          sent
              ∙ ap (λ o. o ++ stream (response_frames handler reqs)) out
              ∙ append_assoc s.outgoing (wire (response_frame (handler req)))
                  (stream (response_frames handler reqs)),
          over,
        )
