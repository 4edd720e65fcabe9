-- ===== src/Protocol/Packet/RoundTrip.antt =====
-- internal/protocol/packet.go: `Unmarshal` and `Marshal` undo one another.
use t2d.Base.{
  ℕ, ◌≤◌, ◌<◌, ◌≡◌, ◌↔◌, List, ◌++◌, arith, length, take, by_cells, OnCells, IsBytes, uint16-bytes,
  uint32-bytes, uint16_bytes-uint16, uint32_bytes-uint32, ok, err,
}
use t2d.Protocol.Error.{invalid_header_size}
use t2d.Protocol.Packet.{PacketHeader, IsHeader, header_size, marshal, unmarshal}
use t2d.Protocol.Packet.Layout.{header_bytes, marshal_lem}

unmarshal-header_bytes :
    (h : PacketHeader) (rest : List ℕ) → IsHeader h → unmarshal (header_bytes h ++ rest) ≡ ok h
unfolding unmarshal
unmarshal-header_bytes h rest v = ground (
  arith,
  uint32-bytes h.magic,
  uint16-bytes h.flags,
  uint32-bytes h.session_id,
  uint32-bytes h.sequence_id,
  uint32-bytes h.length,
)

pub unmarshal-marshal :
    {h : PacketHeader} (rest : List ℕ) → IsHeader h → unmarshal (marshal h ++ rest) ≡ ok h
unmarshal-marshal {h} rest v = rw (marshal_lem h) (unmarshal-header_bytes h rest v)

-- What the fields read from a byte string of at least 20 bytes are worth.
record Decodes (bytes : List ℕ) (h : PacketHeader) : Type 0 where
  in_range : IsHeader h
  same_bytes : header_bytes h ≡ take header_size bytes

from_cells :
    OnCells 20
      λ bytes. IsBytes bytes → (h : PacketHeader) → unmarshal bytes ≡ ok h → Decodes bytes h
unfolding unmarshal
from_cells a b c d e f g i j k l m n o p q r s t u rest v h eq = ground (
  arith,
  uint32_bytes-uint32 a b c d,
  uint16_bytes-uint16 g i,
  uint32_bytes-uint32 j k l m,
  uint32_bytes-uint32 n o p q,
  uint32_bytes-uint32 r s t u,
)

pub unmarshal-ok-length :
    (bytes : List ℕ) {h : PacketHeader} → unmarshal bytes ≡ ok h → header_size ≤ length bytes
unfolding unmarshal
unmarshal-ok-length bytes eq = ground arith

-- What `Unmarshal` accepts is at least 20 bytes long, its fields are in range, and marshalling them
-- gives the first 20 bytes back.
pub marshal-unmarshal :
    (bytes : List ℕ) {h : PacketHeader}
    → IsBytes bytes
    → unmarshal bytes ≡ ok h
    → (header_size ≤ length bytes) × IsHeader h × (marshal h ≡ take header_size bytes)
marshal-unmarshal bytes {h} v eq = (long, decoded.in_range, rw (marshal_lem h) decoded.same_bytes)
  where
    long : header_size ≤ length bytes
    long = unmarshal-ok-length bytes eq

    decoded : Decodes bytes h
    decoded =
        by_cells 20 (λ bs. IsBytes bs → (g : PacketHeader) → unmarshal bs ≡ ok g → Decodes bs g)
          from_cells bytes long v h eq

-- `Unmarshal` fails exactly on fewer than 20 bytes, and with one error.
pub unmarshal-err :
    (bytes : List ℕ) → (unmarshal bytes ≡ err invalid_header_size) ↔ (length bytes < header_size)
unfolding unmarshal
unmarshal-err bytes = (λ h. ground arith, λ h. ground arith)
