-- ===== src/Net/Protocol/Wire.antt =====
-- The bytes of a frame, and those of its numbers.
use message_us_cld.Prelude.{ℕ, ◌+◌, ◌<◌, ◌≡◌, arith, List, ◌∷◌, ◌++◌, length, word32}
use message_us_cld.Net.Protocol.{Frame, htonl, ntohl}

-- The bytes of a frame on the wire: its length, its id, its tag and its payload.
abbrev pub wire : Frame → List ℕ
wire frame = htonl (5 + length frame.payload) ++ (htonl frame.id ++ (frame.tag ∷ frame.payload))

pub ntohl-htonl : (x : ℕ) → x < word32 → ntohl (htonl x) ≡ x
unfolding ntohl htonl
ntohl-htonl x lt = omega arith
