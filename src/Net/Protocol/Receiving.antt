-- ===== src/Net/Protocol/Receiving.antt =====
-- What recv_request and recv_response read.
use native.Mathlib.Decide.{ℕ_discrete}
use message_us_cld.Prelude.{
  ℕ, ◌+◌, ◌-◌, ◌≤◌, ◌<◌, ◌≡◌, ◌≢◌, ◌⊎◌, refl, sym, ap, ap₂, ◌∙◌, subst, arith, Bool, true, false,
  List, [], ◌∷◌, ◌++◌, length, take, drop, replicate, get_or, word32, append-nil, length-append,
  take-append, drop-append, drop_of_short, length-take, length-replicate,
}
use message_us_cld.Net.Socket.{Kernel, Socket, recv_exact}
use message_us_cld.Net.Socket.Exact.{Delivers, recv_exact-all}
use message_us_cld.Net.Protocol.{
  max_payload_bytes, Frame, htonl, ntohl, resize, written, recv_frame,
}
use message_us_cld.Net.Protocol.Wire.{wire, ntohl-htonl}

length-resize : (n : ℕ) (bytes : List ℕ) → length (resize n bytes) ≡ n
length-resize n bytes = omega (
  arith,
  length-append (take n bytes) (replicate (n - length bytes) 0),
  length-take n bytes,
  length-replicate {A = ℕ} (n - length bytes) 0,
)

-- A buffer that is written all over holds what was written.
written-resize : (got bytes : List ℕ) → written got (resize (length got) bytes) ≡ got
written-resize got bytes =
    ap (λ t. got ++ t)
      (drop_of_short (length got) (resize (length got) bytes)
        (omega (arith, length-resize (length got) bytes)))
    ∙ append-nil got

abbrev framed : ℕ → ℕ → List ℕ → Frame
framed i t p = record { id = i; tag = t; payload = p }

same_frame : {i j t u : ℕ} {p q : List ℕ} → i ≡ j → t ≡ u → p ≡ q → framed i t p ≡ framed j u q
same_frame {i} {j} {t} {u} {p} {q} a b c = cc

both_nil : (xs ys : List ℕ) → length xs ≡ 0 → length ys ≡ 0 → xs ≡ ys
both_nil [] [] e f = refl
both_nil [] (y ∷ ys) e f = absurd (omega arith)
both_nil (x ∷ xs) ys e f = absurd (omega arith)

module _ (kernel : Kernel) where
  -- With four bytes of length, four of id and one of tag in front, and a payload behind them.
  module _ (del : Delivers kernel) (s : Socket) (out frame : Frame) (later : List ℕ)
      (id_range : frame.id < word32) (small : length frame.payload ≤ max_payload_bytes)
      (stream : s.incoming ≡ wire frame ++ later) where
    abbrev r1 : Bool × List ℕ × Socket
    r1 = recv_exact kernel s 4

    abbrev r2 : Bool × List ℕ × Socket
    r2 = recv_exact kernel r1.2 4

    abbrev r3 : Bool × List ℕ × Socket
    r3 = recv_exact kernel r2.2 1

    abbrev body_len : ℕ
    body_len = ntohl r1.1

    abbrev r4 : Bool × List ℕ × Socket
    r4 = recv_exact kernel r3.2 (body_len - 5)

    got_len :
        (r1.0 ≡ true)
        × (r1.1 ≡ htonl (5 + length frame.payload))
        × (r1.2.incoming ≡ (htonl frame.id ++ (frame.tag ∷ frame.payload)) ++ later)
    unfolding htonl
    got_len =
        let (ok, bytes, rest) =
          recv_exact-all kernel del s 4 (subst (λ i. 4 ≤ length i) (sym stream) (omega arith)) in
        (ok, bytes ∙ ap (take 4) stream, rest ∙ ap (drop 4) stream)

    got_id :
        (r2.0 ≡ true)
        × (r2.1 ≡ htonl frame.id)
        × (r2.2.incoming ≡ (frame.tag ∷ frame.payload) ++ later)
    unfolding htonl
    got_id =
        let (ok, bytes, rest) =
          recv_exact-all kernel del r1.2 4
            (subst (λ i. 4 ≤ length i) (sym got_len.2) (omega arith)) in
        (ok, bytes ∙ ap (take 4) got_len.2, rest ∙ ap (drop 4) got_len.2)

    got_tag : (r3.0 ≡ true) × (r3.1 ≡ frame.tag ∷ []) × (r3.2.incoming ≡ frame.payload ++ later)
    got_tag =
        let (ok, bytes, rest) =
          recv_exact-all kernel del r2.2 1
            (subst (λ i. 1 ≤ length i) (sym got_id.2) (omega arith)) in
        (ok, bytes ∙ ap (take 1) got_id.2, rest ∙ ap (drop 1) got_id.2)

    len_eq : body_len ≡ 5 + length frame.payload
    len_eq = ap ntohl got_len.1 ∙ ntohl-htonl (5 + length frame.payload) (omega (arith, small))

    got_payload : (r4.0 ≡ true) × (r4.1 ≡ frame.payload) × (r4.2.incoming ≡ later)
    got_payload =
        let (ok, bytes, rest) = recv_exact-all kernel del r3.2 (body_len - 5) (
          subst (λ i. body_len - 5 ≤ length i) (sym got_tag.2)
            (omega (arith, len_eq, length-append frame.payload later))) in
        (
          ok,
          bytes
              ∙ ap (take (body_len - 5)) got_tag.2
              ∙ take-append (body_len - 5) frame.payload later (omega (arith, len_eq)),
          rest
              ∙ ap (drop (body_len - 5)) got_tag.2
              ∙ drop-append (body_len - 5) frame.payload later (omega (arith, len_eq)),
        )

    abbrev pub Got : Bool × Frame × Socket → Type 0
    Got (ok, f, s') = (ok ≡ true) × (f ≡ frame) × (s'.incoming ≡ later)

    without_payload :
        length frame.payload ≡ 0
        → recv_frame kernel s out ≡ (
          true,
          framed (ntohl r2.1) (get_or r3.1 0 out.tag) (resize (body_len - 5) out.payload),
          r3.2,
        )
    unfolding recv_frame
    without_payload none = ground (arith, got_len.0, got_id.0, got_tag.0, len_eq, small)

    with_payload :
        length frame.payload ≢ 0
        → recv_frame kernel s out ≡ (
          true,
          framed
              (ntohl r2.1)
              (get_or r3.1 0 out.tag)
              (written r4.1 (resize (body_len - 5) out.payload)),
          r4.2,
        )
    unfolding recv_frame
    with_payload some = ground (arith, got_len.0, got_id.0, got_tag.0, len_eq, got_payload.0, small)

    pub recv_frame-all : Got (recv_frame kernel s out)
    recv_frame-all = elim (ℕ_discrete (length frame.payload) 0) [
      | yes none ↦ subst Got (sym (without_payload none)) (
        refl,
        same_frame id_eq tag_eq (
            both_nil (resize (body_len - 5) out.payload) frame.payload
              (omega (arith, length-resize (body_len - 5) out.payload, len_eq)) none),
        got_tag.2 ∙ ap (λ p. p ++ later) (both_nil frame.payload [] none refl),
      )
      | no some ↦ subst Got (sym (with_payload some)) (
        refl,
        same_frame id_eq tag_eq (
            ap₂ (λ g n. written g (resize n out.payload)) got_payload.1 payload_eq
            ∙ written-resize frame.payload out.payload),
        got_payload.2,
      )
    ]
      where
        id_eq : ntohl r2.1 ≡ frame.id
        id_eq = ap ntohl got_id.1 ∙ ntohl-htonl frame.id id_range

        tag_eq : get_or r3.1 0 out.tag ≡ frame.tag
        tag_eq = ap (λ b. get_or b 0 out.tag) got_tag.1

        payload_eq : body_len - 5 ≡ length frame.payload
        payload_eq = omega (arith, len_eq)

  -- Where recv brings some bytes as long as there are any, a length field below 5 or above 65540
  -- ends the call behind those four bytes, with the caller's object as it was.
  pub recv_frame-bad_length :
      Delivers kernel
      → (s : Socket) (out : Frame) (len : ℕ) (later : List ℕ) → len < word32
      → (len < 5) ⊎ (5 + max_payload_bytes < len)
      → s.incoming ≡ htonl len ++ later
      → ((recv_frame kernel s out).0 ≡ false)
        × ((recv_frame kernel s out).1 ≡ out)
        × ((recv_frame kernel s out).2.incoming ≡ later)
  unfolding recv_frame htonl
  recv_frame-bad_length del s out len later range bad stream =
      let (ok, bytes, rest) =
        recv_exact-all kernel del s 4 (subst (λ i. 4 ≤ length i) (sym stream) (omega arith)) in
      let field : ntohl (recv_exact kernel s 4).1 ≡ len =
        ap ntohl (bytes ∙ ap (take 4) stream) ∙ ntohl-htonl len range in
      (
        ground (arith, ok, field, bad),
        ground (arith, ok, field, bad),
        ap (λ q. q.incoming) {x = (recv_frame kernel s out).2} {y = (recv_exact kernel s 4).2}
              (ground (arith, ok, field, bad))
            ∙ rest
            ∙ ap (drop 4) stream,
      )
