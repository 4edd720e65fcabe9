-- ===== src/Protocol/Error.antt =====
-- The errors that internal/protocol returns, with the numbers that their messages print.
use t2d.Base.{ℕ}
use t2d.Base.Int.{ℤ}

pub data ProtocolError : Type 0 where
  -- PacketHeader.Unmarshal and Validate
  invalid_header_size : ProtocolError
  invalid_magic : ℕ → ProtocolError
  unsupported_version : ℕ → ProtocolError
  invalid_packet_type : ℕ → ProtocolError
  -- LaneControlPayload.Marshal and UnmarshalLaneControl
  nil_payload : ProtocolError
  zero_lane_count : ProtocolError
  invalid_lane_id : ℕ → ℕ → ProtocolError
  too_many_session_ids : ℕ → ProtocolError
  payload_too_short : ℕ → ProtocolError
  payload_size_mismatch : ℕ → ℕ → ProtocolError
  -- StreamBuffer.NextRef
  payload_too_large : ℕ → ℤ → ProtocolError
