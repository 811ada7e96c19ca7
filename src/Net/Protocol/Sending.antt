-- ===== src/Net/Protocol/Sending.antt =====
-- What send_request and send_response write.
use native.Mathlib.Decide.{dec_lt, ℕ_discrete}
use message_us_cld.Prelude.{
  ℕ, ◌+◌, ◌%◌, ◌≤◌, ◌<◌, ◌≡◌, refl, ap, ◌∙◌, arith, true, List, [], ◌∷◌, ◌++◌, leb, if◌then◌else◌,
  length, word32, append_assoc,
}
use message_us_cld.Net.Socket.{Kernel, Socket, send_exact, send_loop}
use message_us_cld.Net.Socket.Exact.{Accepts, send_exact-all}
use message_us_cld.Net.Protocol.{max_payload_bytes, Frame, htonl, send_frame}
use message_us_cld.Net.Protocol.Wire.{wire}

joined : (a b c d e : List ℕ) → (((a ++ b) ++ c) ++ d) ++ e ≡ a ++ (b ++ (c ++ (d ++ e)))
joined a b c d e =
    append_assoc ((a ++ b) ++ c) d e
    ∙ append_assoc (a ++ b) c (d ++ e)
    ∙ append_assoc a b (c ++ (d ++ e))

module _ (kernel : Kernel) where
  send_exact-nil :
      (s : Socket) (bytes : List ℕ) → length bytes ≡ 0 → s ≡ (send_exact kernel s bytes).1
  unfolding send_exact send_loop
  send_exact-nil s [] e = refl
  send_exact-nil s (b ∷ bs) e = absurd (omega arith)

  module _ (acc : Accepts kernel) (s : Socket) (frame : Frame)
      (small : length frame.payload ≤ max_payload_bytes) where
    -- The sockets behind each write.
    abbrev s1 : Socket
    s1 = (send_exact kernel s (htonl ((5 + length frame.payload) % word32))).1

    abbrev s2 : Socket
    s2 = (send_exact kernel s1 (htonl frame.id)).1

    abbrev s3 : Socket
    s3 = (send_exact kernel s2 (frame.tag ∷ [])).1

    abbrev s4 : Socket
    s4 = (send_exact kernel s3 frame.payload).1

    all_sent : send_frame kernel s frame ≡ (true, s4)
    unfolding send_frame
    all_sent =
        let ok1 = (send_exact-all kernel acc s (htonl ((5 + length frame.payload) % word32))).0 in
        let ok2 = (send_exact-all kernel acc s1 (htonl frame.id)).0 in
        let ok3 = (send_exact-all kernel acc s2 (frame.tag ∷ [])).0 in
        let ok4 = (send_exact-all kernel acc s3 frame.payload).0 in
        elim (ℕ_discrete (length frame.payload) 0) [
          | yes none ↦ ground (arith, small, ok1, ok2, ok3, send_exact-nil s3 frame.payload none)
          | no some ↦ ground (arith, small, ok1, ok2, ok3, ok4)
        ]

    wire_sent : s4.outgoing ≡ s.outgoing ++ wire frame
    wire_sent =
        (send_exact-all kernel acc s3 frame.payload).1
        ∙ ap (λ o. o ++ frame.payload)
            ((send_exact-all kernel acc s2 (frame.tag ∷ [])).1
              ∙ ap (λ o. o ++ (frame.tag ∷ []))
                  ((send_exact-all kernel acc s1 (htonl frame.id)).1
                    ∙ ap (λ o. o ++ htonl frame.id)
                        (send_exact-all kernel acc s
                          (htonl ((5 + length frame.payload) % word32))).1))
        ∙ joined s.outgoing (htonl ((5 + length frame.payload) % word32)) (htonl frame.id)
            (frame.tag ∷ []) frame.payload
        ∙ ap (λ n. s.outgoing ++ (htonl n ++ (htonl frame.id ++ (frame.tag ∷ frame.payload))))
            (omega (arith, small))

  too_big :
      (s : Socket) (frame : Frame)
      → max_payload_bytes < length frame.payload
      → ((send_frame kernel s frame).0 ≡ leb (length frame.payload) max_payload_bytes)
        × ((send_frame kernel s frame).1.outgoing ≡ (
            if leb (length frame.payload) max_payload_bytes
            then s.outgoing ++ wire frame
            else s.outgoing))
  unfolding send_frame
  too_big s frame big = (ground arith, ground arith)

  -- Where each send takes some bytes, a frame goes out whole when its payload is within the limit,
  -- and otherwise the call fails and nothing goes out.
  pub send_frame-all :
      Accepts kernel
      → (s : Socket) (frame : Frame)
      → ((send_frame kernel s frame).0 ≡ leb (length frame.payload) max_payload_bytes)
        × ((send_frame kernel s frame).1.outgoing ≡ (
            if leb (length frame.payload) max_payload_bytes
            then s.outgoing ++ wire frame
            else s.outgoing))
  send_frame-all acc s frame = elim (dec_lt max_payload_bytes (length frame.payload)) [
    | yes big ↦ too_big s frame big
    | no small ↦ (
      ap (λ q. q.0) (all_sent acc s frame (omega (arith, small))) ∙ ground (arith, small),
      ap (λ q. q.1.outgoing) (all_sent acc s frame (omega (arith, small)))
          ∙ wire_sent acc s frame (omega (arith, small))
          ∙ ground (arith, small),
    )
  ]
