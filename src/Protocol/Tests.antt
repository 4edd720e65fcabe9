-- ===== src/Protocol/Tests.antt =====
-- Concrete packets, control frames and streams.
use t2d.Base.{ℕ, ◌+◌, ◌≤◌, ◌<◌, ◌≡◌, refl, ◌↔◌, List, [], ◌∷◌, ◌++◌, some, arith, length, set, ok}
use t2d.Base.Int.{pos}
use t2d.Protocol.Packet.{
  PacketHeader, IsHeader, header_size, marshal, marshal_to, unmarshal, append_data_packet,
  append_packet, append_to, new_data_packet,
}
use t2d.Protocol.Packet.RoundTrip.{unmarshal-marshal, marshal-unmarshal}
use t2d.Protocol.Control
use t2d.Protocol.Control.{LaneControlPayload, IsControl, unmarshal_lane_control}
use t2d.Protocol.Control.Layout.{control_bytes, marshal_iff}
use t2d.Protocol.Control.RoundTrip.{unmarshal_lane_control-marshal, marshal-unmarshal_lane_control}
use t2d.Protocol.Stream.{StreamBuffer, Frame, found, next_ref, next}
use t2d.Protocol.Stream.View.{unread, IsValid}
use t2d.Protocol.Stream.Step.{IsFrame, frame_bytes, next_ref-found}
use t2d.Protocol.Stream.Sound.{next_ref_sound, next_lem}

-- A data packet of session 7, number 258, with two bytes.
abbrev data_header : PacketHeader
data_header = record {
  magic = 0x54435050;
  version = 1;
  type = 1;
  flags = 0;
  session_id = 7;
  sequence_id = 258;
  length = 2;
}

abbrev data_bytes : List ℕ
data_bytes =
    0x54 ∷ 0x43 ∷ 0x50 ∷ 0x50 ∷ 1 ∷ 1 ∷ 0 ∷ 0 ∷ 0 ∷ 0 ∷ 0 ∷ 7 ∷ 0 ∷ 0 ∷ 1 ∷ 2 ∷ 0 ∷ 0 ∷ 0 ∷ 2 ∷ []

abbrev data_frame : Frame
data_frame = record { header = data_header; payload = 0xaa ∷ 0xbb ∷ [] }

marshal_test : marshal data_header ≡ data_bytes
unfolding marshal marshal_to
marshal_test = refl

append_data_packet_test :
    append_data_packet (9 ∷ []) 7 258 (0xaa ∷ 0xbb ∷ []) ≡ 9 ∷ data_bytes ++ (0xaa ∷ 0xbb ∷ [])
unfolding append_data_packet append_packet append_to marshal_to new_data_packet
append_data_packet_test = refl

data_header-IsHeader : IsHeader data_header
data_header-IsHeader = omega arith

unmarshal-marshal_example : unmarshal (marshal data_header ++ (0xaa ∷ 0xbb ∷ [])) ≡ ok data_header
unmarshal-marshal_example = unmarshal-marshal (0xaa ∷ 0xbb ∷ []) data_header-IsHeader

unmarshal_test : unmarshal (data_bytes ++ (0xaa ∷ [])) ≡ ok data_header
unfolding unmarshal
unmarshal_test = refl

marshal-unmarshal_example :
    (header_size ≤ length (data_bytes ++ (0xaa ∷ [])))
    × IsHeader data_header
    × (marshal data_header ≡ data_bytes)
marshal-unmarshal_example =
    marshal-unmarshal (data_bytes ++ (0xaa ∷ [])) (omega arith) unmarshal_test

-- Lane 1 of 4 registers sessions 5 and 256.
abbrev register_payload : LaneControlPayload
register_payload = record { subtype = 2; lane_id = 1; lane_count = 4; session_ids = 5 ∷ 256 ∷ [] }

-- Its bytes with a reserved byte that is not 0.
abbrev register_bytes : List ℕ
register_bytes = 2 ∷ 9 ∷ 0 ∷ 1 ∷ 0 ∷ 4 ∷ 0 ∷ 2 ∷ 0 ∷ 0 ∷ 0 ∷ 5 ∷ 0 ∷ 0 ∷ 1 ∷ 0 ∷ []

control_marshal_test : Control.marshal (some register_payload) ≡ ok (set register_bytes 1 0)
unfolding Control.marshal
control_marshal_test = refl

unmarshal_lane_control_test : unmarshal_lane_control register_bytes ≡ ok register_payload
unfolding unmarshal_lane_control
unmarshal_lane_control_test = refl

register_payload-IsControl : IsControl register_payload
register_payload-IsControl = omega arith

marshal_iff_example :
    (Control.marshal (some register_payload) ≡ ok (set register_bytes 1 0))
    ↔ ((0 < 4) × (1 < 4) × (2 < 65536) × (set register_bytes 1 0 ≡ control_bytes register_payload))
marshal_iff_example = marshal_iff register_payload (set register_bytes 1 0)

unmarshal_lane_control-marshal_example :
    unmarshal_lane_control (set register_bytes 1 0) ≡ ok register_payload
unmarshal_lane_control-marshal_example =
    unmarshal_lane_control-marshal register_payload-IsControl control_marshal_test

marshal-unmarshal_lane_control_example :
    IsControl register_payload
    × (Control.marshal (some register_payload) ≡ ok (set register_bytes 1 0))
marshal-unmarshal_lane_control_example =
    marshal-unmarshal_lane_control register_bytes (omega arith) unmarshal_lane_control_test

-- A buffer that has given one byte away and holds a frame and one byte more.
abbrev buffered : StreamBuffer
buffered = record {
  buf = 9 ∷ data_bytes ++ (0xaa ∷ 0xbb ∷ 0x54 ∷ []);
  off = 1;
  cap = 30;
  max_payload = pos 1500;
}

buffered-IsValid : IsValid buffered
buffered-IsValid = omega arith

data_frame-IsFrame : IsFrame buffered.max_payload data_frame
data_frame-IsFrame = record {
  in_range = omega arith;
  accepted = omega arith;
  fits = refl;
  whole = refl;
}

buffered_bytes : unread buffered ≡ frame_bytes data_frame ++ (0x54 ∷ [])
unfolding marshal marshal_to
buffered_bytes = refl

next_ref-found_example :
    ((next_ref buffered).1 ≡ found data_frame)
    × (unread (next_ref buffered).0 ≡ 0x54 ∷ [])
    × IsValid (next_ref buffered).0
    × ((next_ref buffered).0.max_payload ≡ pos 1500)
next_ref-found_example =
    next_ref-found data_frame (0x54 ∷ []) buffered-IsValid data_frame-IsFrame buffered_bytes

next_ref_sound_example :
    IsFrame buffered.max_payload data_frame
    × (unread buffered ≡ frame_bytes data_frame ++ unread (next_ref buffered).0)
    × IsValid (next_ref buffered).0
next_ref_sound_example = next_ref_sound buffered-IsValid (omega arith) next_ref-found_example.0

-- Doubling, as far as it is enough.
abbrev double : ℕ → ℕ → ℕ
double old needed = old + old + needed

next_lem_example : next buffered ≡ next_ref buffered
next_lem_example = next_lem buffered
