-- ===== src/Protocol/Control.antt =====
-- internal/protocol/control.go: the lane control payload (hello, register, heartbeat).
pub mod Layout
pub mod RoundTrip
use t2d.Base.{
  ℕ, zero, suc, ◌+◌, ◌*◌, ◌%◌, ◌^◌, List, [], ◌∷◌, Option, none, some, length, drop, replicate, set,
  ltb, leb, ◌==◌, if◌then◌else◌, not, byte_at, put_uint16, put_uint32, uint16, uint32, Result, ok,
  err, ◌>>=◌, All, IsU8, IsU16, IsU32,
}
use t2d.Protocol.Error.{
  ProtocolError, nil_payload, zero_lane_count, invalid_lane_id, too_many_session_ids,
  payload_too_short, payload_size_mismatch,
}
use t2d.Protocol.Packet.{PacketHeader, new_control_packet}

abbrev pub subtype_hello : ℕ
subtype_hello = 1

abbrev pub subtype_lane_register : ℕ
subtype_lane_register = 2

abbrev pub subtype_lane_heartbeat : ℕ
subtype_lane_heartbeat = 3

pub record LaneControlPayload : Type 0 where
  pub subtype : ℕ
  pub lane_id : ℕ
  pub lane_count : ℕ
  pub session_ids : List ℕ

-- The ranges of the field types.
pub record IsControl (p : LaneControlPayload) : Type 0 where
  pub subtype_u8 : IsU8 p.subtype
  pub lane_id_u16 : IsU16 p.lane_id
  pub lane_count_u16 : IsU16 p.lane_count
  pub session_ids_u32 : All IsU32 p.session_ids

-- `for _, sid := range p.SessionIDs { PutUint32(buf[off:off+4], sid); off += 4 }`
unfoldable pub put_session_ids : List ℕ → ℕ → List ℕ → List ℕ
put_session_ids [] off buf = buf
put_session_ids (sid ∷ sids) off buf = put_session_ids sids (off + 4) (put_uint32 off sid buf)

-- The part of `Marshal` behind the checks.
unfoldable pub encode : LaneControlPayload → List ℕ
unfolding put_session_ids
encode p =
    let n = length p.session_ids in
    let b0 = set (replicate (8 + n * 4) 0) 0 p.subtype in
    let b1 = set b0 1 0 in
    let b2 = put_uint16 2 p.lane_id b1 in
    let b4 = put_uint16 4 p.lane_count b2 in
    let b6 = put_uint16 6 (n % 2 ^ 16) b4 in put_session_ids p.session_ids 8 b6

-- `Marshal`; `none` is the nil pointer.
unfoldable pub marshal : Option LaneControlPayload → Result ProtocolError (List ℕ)
unfolding encode
marshal none = err nil_payload
marshal (some p) =
    if p.lane_count == 0
    then err zero_lane_count
    else if leb p.lane_count p.lane_id
    then err (invalid_lane_id p.lane_id p.lane_count)
    else if ltb 0xffff (length p.session_ids)
    then err (too_many_session_ids (length p.session_ids))
    else ok (encode p)

-- `for i := 0; i < sessionCount; i++ { SessionIDs[i] = Uint32(payload[off:off+4]); off += 4 }`
pub read_session_ids : ℕ → ℕ → List ℕ → List ℕ
read_session_ids zero off payload = []
read_session_ids (suc n) off payload =
    uint32 (drop off payload) ∷ read_session_ids n (off + 4) payload

-- `UnmarshalLaneControl`
unfoldable pub unmarshal_lane_control : List ℕ → Result ProtocolError LaneControlPayload
unfolding read_session_ids
unmarshal_lane_control payload =
    if ltb (length payload) 8
    then err (payload_too_short (length payload))
    else let session_count = uint16 (drop 6 payload) in
      let expected = 8 + session_count * 4 in
      let lane_id = uint16 (drop 2 payload) in
      let lane_count = uint16 (drop 4 payload) in
      if not (length payload == expected)
      then err (payload_size_mismatch (length payload) expected)
      else if lane_count == 0
      then err zero_lane_count
      else if leb lane_count lane_id
      then err (invalid_lane_id lane_id lane_count)
      else ok (record {
        subtype = byte_at 0 payload;
        lane_id = lane_id;
        lane_count = lane_count;
        session_ids = read_session_ids session_count 8 payload;
      })

-- `NewControlPacketPayload`; `ctrl.LaneID` is read only if `Marshal` did not fail.
unfoldable pub new_control_packet_payload :
    ℕ → Option LaneControlPayload → Result ProtocolError (PacketHeader × List ℕ)
new_control_packet_payload sequence_id none = err nil_payload
new_control_packet_payload sequence_id (some ctrl) = do
  payload ← marshal (some ctrl)
  let header = new_control_packet ctrl.lane_id (length payload % 2 ^ 32)
  ok (record header { sequence_id = sequence_id }, payload)
