-- ===== src/Net/Server/Conversation.antt =====
-- A client and a server over one connection (tcp_server/src/tcp_client.hpp: send and recv,
-- tcp_server/src/tcp_server.cpp: handle_connection).
use message_us_cld.Prelude.{
  suc, ◌≡◌, refl, sym, ap, ap₂, ◌∙◌, arith, true, List, [], ◌∷◌, ◌++◌, map, some, append-nil,
  append_assoc, length,
}
use message_us_cld.Net.Socket.{Kernel, Socket}
use message_us_cld.Net.Socket.Exact.{Delivers, Accepts}
use message_us_cld.Net.Protocol.{
  Request, Response, send_frame, recv_frame, send_request, recv_response,
}
use message_us_cld.Net.Protocol.Wire.{wire}
use message_us_cld.Net.Protocol.Receiving.{recv_frame-all}
use message_us_cld.Net.Server.{no_response, handle_connection, send_all, recv_all}
use message_us_cld.Net.Server.Connection.{Ends}
use message_us_cld.Net.Server.Serving.{
  AllFit, request_frame, response_frame, request_frames, response_frames, stream, send_frame-goes,
  handle_connection-Served,
}

module _ (kernel : Kernel) (handler : Request → Response) where
  send_all-stream :
      Accepts kernel
      → (reqs : List Request) (s : Socket) → AllFit handler reqs
      → ((send_all kernel s reqs).0 ≡ true)
        × ((send_all kernel s reqs).1.outgoing ≡ s.outgoing ++ stream (request_frames reqs))
  unfolding send_all send_request
  send_all-stream acc [] s fit = (refl, sym (append-nil s.outgoing))
  send_all-stream acc (req ∷ reqs) s (fits, fits_resp, fit) =
      let (ok, out) = send_frame-goes kernel acc s (request_frame req) fits in
      let s1 = (send_frame kernel s (request_frame req)).1 in
      let (all, more) = send_all-stream acc reqs s1 fit in
      (
        ground (arith, ok, all),
        ap (λ u. u.outgoing) {x = (send_all kernel s (req ∷ reqs)).1}
              {y = (send_all kernel s1 reqs).1} (ground (arith, ok))
            ∙ more
            ∙ ap (λ o. o ++ stream (request_frames reqs)) out
            ∙ append_assoc s.outgoing (wire (request_frame req)) (stream (request_frames reqs)),
      )

  recv_all-stream :
      Delivers kernel
      → (reqs : List Request) (s : Socket) → AllFit handler reqs
      → s.incoming ≡ stream (response_frames handler reqs)
      → recv_all kernel s (length reqs) ≡ map handler reqs
  unfolding recv_all recv_response
  recv_all-stream del [] s fit coming = refl
  recv_all-stream del (req ∷ reqs) s (fits_req, fits, fit) coming =
      let (ok, same, rest) =
        recv_frame-all kernel del s (response_frame no_response) (response_frame (handler req))
          (stream (response_frames handler reqs)) fits.0 fits.1 coming in
      let s1 = (recv_frame kernel s (response_frame no_response)).2 in
      let ih = recv_all-stream del reqs s1 fit rest in
      let resp : Response = handler req in
      let got =
        ap (λ f. record { id = f.id; status = f.tag; payload = f.payload })
          {y = response_frame resp} same in
      ground (arith, ok) ∙ ap₂ (λ r rs. r ∷ rs) {y = resp} got ih

-- Each end takes its own bytes with its own kernel, which may cut them into pieces of any sizes as
-- long as each call moves something, and recv returns 0 at the end. A client sends requests on a new
-- connection and then closes its side, the server handles the connection with the bytes sent, and the
-- client receives from what the server sent: with ids below 2^32 and payloads within the limit, of
-- requests and of responses, all sends succeed, the server comes to an end, and the client receives
-- the handler's responses to its requests, in the order of these.
pub conversation :
    (client server : Kernel)
    → Accepts client
    → Delivers client
    → Accepts server
    → Delivers server
    → Ends server
    → (handler : Request → Response) (reqs : List Request) (a b c : Socket) → AllFit handler reqs
    → a.outgoing ≡ []
    → b.outgoing ≡ []
    → ((send_all client a reqs).0 ≡ true)
      × (u : Socket) × (handle_connection server handler
            (suc (length reqs))
            (record b { incoming = (send_all client a reqs).1.outgoing })
          ≡ some u)
      × (recv_all client (record c { incoming = u.outgoing }) (length reqs) ≡ map handler reqs)
conversation client server acc del acc' del' ends handler reqs a b c fit new_a new_b =
    let (ok, sent) = send_all-stream client handler acc reqs a fit in
    let s : Socket = record b { incoming = (send_all client a reqs).1.outgoing } in
    let (u, run, out, over) =
      handle_connection-Served server del' acc' handler ends reqs s fit
        (sent ∙ ap (λ o. o ++ stream (request_frames reqs)) new_a) in
    (
      ok,
      u,
      run,
      recv_all-stream client handler del reqs (record c { incoming = u.outgoing }) fit
          (out ∙ ap (λ o. o ++ stream (response_frames handler reqs)) new_b),
    )
