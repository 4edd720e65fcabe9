-- ===== src/Protocol/Packet/Layout.antt =====
-- internal/protocol/packet.go: where the header's fields stand on the wire.
use t2d.Base.{
  ℕ, ◌≤◌, ◌≡◌, refl, ap, List, ◌∷◌, ◌++◌, append_assoc, arith, length, drop, replicate, by_cells,
  take-append_length, drop-append_length, IsBytes, uint16_bytes, uint32_bytes,
}
use t2d.Protocol.Packet.{
  PacketHeader, IsHeader, header_size, marshal_to, marshal, append_to, append_packet,
}

-- The wire format: the fields in order, most significant byte first.
abbrev pub header_bytes : PacketHeader → List ℕ
header_bytes h =
    uint32_bytes h.magic
    ++ (h.version ∷ h.type ∷ uint16_bytes h.flags
        ++ (uint32_bytes h.session_id ++ (uint32_bytes h.sequence_id ++ uint32_bytes h.length)))

-- `MarshalTo` writes the wire format over the first 20 bytes of a buffer and leaves the rest.
pub marshal_to_lem :
    (h : PacketHeader) (buf : List ℕ)
    → header_size ≤ length buf
    → marshal_to h buf ≡ header_bytes h ++ drop header_size buf
unfolding marshal_to
marshal_to_lem h =
    by_cells 20 (λ buf. marshal_to h buf ≡ header_bytes h ++ drop header_size buf)
      (λ a b c d e f g i j k l m n o p q r s t u rest. refl)

pub marshal_lem : (h : PacketHeader) → marshal h ≡ header_bytes h
unfolding marshal marshal_to
marshal_lem h = refl

pub length-marshal : (h : PacketHeader) → length (marshal h) ≡ header_size
length-marshal h = ap length (marshal_lem h)

pub append_to_lem : (h : PacketHeader) (dst : List ℕ) → append_to h dst ≡ dst ++ header_bytes h
unfolding append_to marshal
append_to_lem h dst =
    rw
      (
        take-append_length dst (replicate header_size 0) (length dst) refl,
        drop-append_length dst (replicate header_size 0) (length dst) refl,
      )
      (ap (◌++◌ dst) (marshal_lem h))

-- `AppendPacket` leaves what the buffer holds and adds the header and then the payload.
pub append_packet_lem :
    (dst : List ℕ) (h : PacketHeader) (payload : List ℕ)
    → append_packet dst h payload ≡ dst ++ (marshal h ++ payload)
unfolding append_packet
append_packet_lem dst h payload =
    rw (append_to_lem, marshal_lem) (append_assoc dst (header_bytes h) payload)

pub marshal-IsBytes : {h : PacketHeader} → IsHeader h → IsBytes (marshal h)
marshal-IsBytes {h} v = rw (marshal_lem h) (omega arith)
