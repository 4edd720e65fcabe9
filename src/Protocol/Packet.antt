-- ===== src/Protocol/Packet.antt =====
-- internal/protocol/packet.go: the 20-byte TCP packet header, its codec and its validation.
pub mod Layout
pub mod Assembly
pub mod RoundTrip
pub mod Validation
use t2d.Base.{
  ℕ, ◌%◌, ◌^◌, List, ◌++◌, ◌||◌, not, length, take, drop, replicate, set, ltb, ◌==◌, if◌then◌else◌,
  byte_at, put_uint16, put_uint32, uint16, uint32, Result, ok, err, IsU8, IsU16, IsU32,
}
use t2d.Protocol.Error.{
  ProtocolError, invalid_header_size, invalid_magic, unsupported_version, invalid_packet_type,
}

pub record PacketHeader : Type 0 where
  pub magic : ℕ
  pub version : ℕ
  pub type : ℕ
  pub flags : ℕ
  pub session_id : ℕ
  pub sequence_id : ℕ
  pub length : ℕ

-- The ranges of the field types.
pub record IsHeader (h : PacketHeader) : Type 0 where
  pub magic_u32 : IsU32 h.magic
  pub version_u8 : IsU8 h.version
  pub type_u8 : IsU8 h.type
  pub flags_u16 : IsU16 h.flags
  pub session_id_u32 : IsU32 h.session_id
  pub sequence_id_u32 : IsU32 h.sequence_id
  pub length_u32 : IsU32 h.length

abbrev pub magic_number : ℕ
magic_number = 0x54435050

abbrev pub protocol_version : ℕ
protocol_version = 1

abbrev pub header_size : ℕ
header_size = 20

abbrev pub packet_type_data : ℕ
packet_type_data = 1

abbrev pub packet_type_heartbeat : ℕ
packet_type_heartbeat = 2

abbrev pub packet_type_control : ℕ
packet_type_control = 3

-- `MarshalTo`: the buffer after the writes. Every caller passes at least `header_size` bytes;
-- on fewer Go panics, and a write past the end is dropped here.
unfoldable pub marshal_to : PacketHeader → List ℕ → List ℕ
marshal_to h buf =
    let b0 = put_uint32 0 h.magic buf in
    let b4 = set b0 4 h.version in
    let b5 = set b4 5 h.type in
    let b6 = put_uint16 6 h.flags b5 in
    let b8 = put_uint32 8 h.session_id b6 in
    let b12 = put_uint32 12 h.sequence_id b8 in put_uint32 16 h.length b12

unfoldable pub marshal : PacketHeader → List ℕ
marshal h = marshal_to h (replicate header_size 0)

-- `AppendTo`: `dst[offset:]` is marshalled in place.
unfoldable pub append_to : PacketHeader → List ℕ → List ℕ
append_to h dst =
    let offset = length dst in
    let grown = dst ++ replicate header_size 0 in
    take offset grown ++ marshal_to h (drop offset grown)

unfoldable pub append_packet : List ℕ → PacketHeader → List ℕ → List ℕ
append_packet dst header payload = append_to header dst ++ payload

unfoldable pub unmarshal : List ℕ → Result ProtocolError PacketHeader
unmarshal bytes =
    if ltb (length bytes) header_size
    then err invalid_header_size
    else ok (record {
      magic = uint32 bytes;
      version = byte_at 4 bytes;
      type = byte_at 5 bytes;
      flags = uint16 (drop 6 bytes);
      session_id = uint32 (drop 8 bytes);
      sequence_id = uint32 (drop 12 bytes);
      length = uint32 (drop 16 bytes);
    })

pub validate : PacketHeader → Result ProtocolError (Unit {0})
validate h =
    if not (h.magic == magic_number)
    then err (invalid_magic h.magic)
    else if not (h.version == protocol_version)
    then err (unsupported_version h.version)
    else if ltb h.type packet_type_data || ltb packet_type_control h.type
    then err (invalid_packet_type h.type)
    else ok tt

unfoldable pub new_data_packet : ℕ → ℕ → ℕ → PacketHeader
new_data_packet session_id sequence_id data_len = record {
  magic = magic_number;
  version = protocol_version;
  type = packet_type_data;
  flags = 0;
  session_id = session_id;
  sequence_id = sequence_id;
  length = data_len;
}

unfoldable pub new_heartbeat_packet : ℕ → PacketHeader
new_heartbeat_packet session_id = record {
  magic = magic_number;
  version = protocol_version;
  type = packet_type_heartbeat;
  flags = 0;
  session_id = session_id;
  sequence_id = 0;
  length = 0;
}

unfoldable pub new_control_packet : ℕ → ℕ → PacketHeader
new_control_packet session_id data_len = record {
  magic = magic_number;
  version = protocol_version;
  type = packet_type_control;
  flags = 0;
  session_id = session_id;
  sequence_id = 0;
  length = data_len;
}

-- `uint32(len(payload))` wraps.
unfoldable pub append_data_packet : List ℕ → ℕ → ℕ → List ℕ → List ℕ
append_data_packet dst session_id sequence_id payload =
    append_packet dst (new_data_packet session_id sequence_id (length payload % 2 ^ 32)) payload
