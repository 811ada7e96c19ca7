-- ===== src/Net/Protocol.antt =====
-- tcp_server/src/protocol.hpp and protocol.cpp: the frames of requests and responses. Bytes are
-- numbers below 256; `id` is a uint32_t and `type` and `status` are bytes.
pub mod Wire
pub mod Sending
pub mod Receiving
pub mod RoundTrip
use message_us_cld.Prelude.{
  ℕ, ◌+◌, ◌-◌, ◌*◌, ◌/◌, ◌%◌, ◌^◌, Bool, true, false, List, [], ◌∷◌, ◌++◌, ◌||◌, not, ◌==◌, ltb,
  if◌then◌else◌, length, take, drop, replicate, get_or, word32,
}
use message_us_cld.Net.Socket.{Kernel, Socket, recv_exact, send_exact}

abbrev pub max_payload_bytes : ℕ
max_payload_bytes = 65535

-- A StatusCode may be any byte: it is cast from one.
pub record Request : Type 0 where
  pub id : ℕ
  pub type : ℕ
  pub payload : List ℕ

pub record Response : Type 0 where
  pub id : ℕ
  pub status : ℕ
  pub payload : List ℕ

-- The bytes in memory of htonl of a uint32_t, and ntohl of four bytes.
unfoldable pub htonl : ℕ → List ℕ
htonl x = (x / 2 ^ 24 % 256) ∷ (x / 2 ^ 16 % 256) ∷ (x / 2 ^ 8 % 256) ∷ (x % 256) ∷ []

unfoldable pub ntohl : List ℕ → ℕ
ntohl bytes =
    get_or bytes 0 0 * 2 ^ 24
    + get_or bytes 1 0 * 2 ^ 16
    + get_or bytes 2 0 * 2 ^ 8
    + get_or bytes 3 0

-- What a request and a response have in common; `tag` is the type or the status.
pub record Frame : Type 0 where
  pub id : ℕ
  pub tag : ℕ
  pub payload : List ℕ

-- vector::resize, and a write over the beginning of a buffer.
abbrev pub resize : ℕ → List ℕ → List ℕ
resize n bytes = take n bytes ++ replicate (n - length bytes) 0

abbrev pub written : List ℕ → List ℕ → List ℕ
written got buffer = got ++ drop (length got) buffer

unfoldable pub send_frame : Kernel → Socket → Frame → Bool × Socket
send_frame kernel s frame =
    let body_len = (5 + length frame.payload) % word32 in
    let (ok_len, s1) = send_exact kernel s (htonl body_len) in
    let (ok_id, s2) = send_exact kernel s1 (htonl frame.id) in
    let (ok_tag, s3) = send_exact kernel s2 (frame.tag ∷ []) in
    let (ok_payload, s4) = send_exact kernel s3 frame.payload in
    if ltb max_payload_bytes (length frame.payload)
    then (false, s)
    else if not ok_len
    then (false, s1)
    else if not ok_id
    then (false, s2)
    else if not ok_tag
    then (false, s3)
    else if length frame.payload == 0
    then (true, s3)
    else (ok_payload, s4)

-- `out` is the caller's object, which a failure may leave half written.
unfoldable pub recv_frame : Kernel → Socket → Frame → Bool × Frame × Socket
recv_frame kernel s out =
    let (ok_len, net_len, s1) = recv_exact kernel s 4 in
    let body_len = ntohl net_len in
    let (ok_id, net_id, s2) = recv_exact kernel s1 4 in
    let (ok_tag, tag, s3) = recv_exact kernel s2 1 in
    let payload_len = body_len - 5 in
    let (ok_payload, got, s4) = recv_exact kernel s3 payload_len in
    let with_id = record out { id = ntohl net_id } in
    let with_tag = record with_id {
      tag = get_or tag 0 out.tag;
      payload = resize payload_len out.payload;
    } in
    let with_payload = record with_tag { payload = written got (resize payload_len out.payload) } in
    if not ok_len
    then (false, out, s1)
    else if ltb body_len 5 || ltb max_payload_bytes (body_len - 5)
    then (false, out, s1)
    else if not ok_id
    then (false, out, s2)
    else if not ok_tag
    then (false, with_id, s3)
    else if payload_len == 0
    then (true, with_tag, s3)
    else (ok_payload, with_payload, s4)

unfoldable pub send_request : Kernel → Socket → Request → Bool × Socket
send_request kernel s req =
    send_frame kernel s (record { id = req.id; tag = req.type; payload = req.payload })

unfoldable pub send_response : Kernel → Socket → Response → Bool × Socket
send_response kernel s resp =
    send_frame kernel s (record { id = resp.id; tag = resp.status; payload = resp.payload })

unfoldable pub recv_request : Kernel → Socket → Request → Bool × Request × Socket
recv_request kernel s out =
    let (ok, frame, s') =
      recv_frame kernel s (record { id = out.id; tag = out.type; payload = out.payload }) in
    (ok, record { id = frame.id; type = frame.tag; payload = frame.payload }, s')

unfoldable pub recv_response : Kernel → Socket → Response → Bool × Response × Socket
recv_response kernel s out =
    let (ok, frame, s') =
      recv_frame kernel s (record { id = out.id; tag = out.status; payload = out.payload }) in
    (ok, record { id = frame.id; status = frame.tag; payload = frame.payload }, s')
