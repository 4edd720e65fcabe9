-- ===== src/Protocol/Packet/Validation.antt =====
-- internal/protocol/packet.go: which headers `Validate` lets through, and that the program's own
-- constructors build such headers.
use t2d.Base.{ℕ, ◌≤◌, ◌<◌, ◌≡◌, ◌⊎◌, ◌↔◌, ◌≢◌, arith, ok, err, IsU32}
use t2d.Protocol.Error.{invalid_magic, unsupported_version, invalid_packet_type}
use t2d.Protocol.Packet.{
  PacketHeader, IsHeader, magic_number, protocol_version, packet_type_data, packet_type_control,
  validate, new_data_packet, new_heartbeat_packet, new_control_packet,
}

-- A header of this protocol: its magic number, version 1, and one of the three packet types.
pub record IsAccepted (h : PacketHeader) : Type 0 where
  pub magic_ok : h.magic ≡ magic_number
  pub version_ok : h.version ≡ protocol_version
  pub type_low : packet_type_data ≤ h.type
  pub type_high : h.type ≤ packet_type_control

-- `Validate` accepts exactly those headers.
pub validate_iff : (h : PacketHeader) → (validate h ≡ ok tt) ↔ IsAccepted h
unfolding validate
validate_iff h = (λ e. ground arith, λ a. ground arith)

-- The errors come in the order of the checks, each with the value that it reports.
pub validate-err :
    (h : PacketHeader)
    → (h.magic ≢ magic_number → validate h ≡ err (invalid_magic h.magic))
      × (h.magic ≡ magic_number
          → h.version ≢ protocol_version
          → validate h ≡ err (unsupported_version h.version))
      × (h.magic ≡ magic_number
          → h.version ≡ protocol_version
          → (h.type < packet_type_data) ⊎ (packet_type_control < h.type)
          → validate h ≡ err (invalid_packet_type h.type))
unfolding validate
validate-err h = (λ a. ground arith, λ a b. ground arith, λ a b c. ground arith)

pub new_data_packet-IsHeader :
    (s q n : ℕ) → IsU32 s → IsU32 q → IsU32 n → IsHeader (new_data_packet s q n)
unfolding new_data_packet
new_data_packet-IsHeader s q n hs hq hn = omega arith

pub new_data_packet-IsAccepted : (s q n : ℕ) → IsAccepted (new_data_packet s q n)
unfolding new_data_packet
new_data_packet-IsAccepted s q n = omega arith

pub new_heartbeat_packet-IsAccepted : (s : ℕ) → IsAccepted (new_heartbeat_packet s)
unfolding new_heartbeat_packet
new_heartbeat_packet-IsAccepted s = omega arith

pub new_control_packet-IsHeader : (s n : ℕ) → IsU32 s → IsU32 n → IsHeader (new_control_packet s n)
unfolding new_control_packet
new_control_packet-IsHeader s n hs hn = omega arith

pub new_control_packet-IsAccepted : (s n : ℕ) → IsAccepted (new_control_packet s n)
unfolding new_control_packet
new_control_packet-IsAccepted s n = omega arith
