-- ===== src/Server/Lanes/Tests.antt =====
-- Two lanes, three connections and two sessions.
use t2d.Base.{ℕ, ◌≡◌, ◌++◌, refl, inl, [], ◌∷◌, Option, some, none, map, All, arith}
use t2d.Base.Int.{pos}
use t2d.Base.Maps.{load}
use t2d.Protocol.Packet.{new_data_packet, marshal_to}
use t2d.Protocol.Control.{LaneControlPayload, subtype_hello}
use t2d.Protocol.Stream.{StreamBuffer, next_ref, found}
use t2d.Protocol.Stream.View.{unread}
use t2d.Stats.{new}
use t2d.Server.Lanes.{
  Server, DownstreamWriter, lane_for_session, handle_lane_control, on_close, close_lane,
  ensure_context, context_lane, join_lane, set_downstream_conn_for_lane,
  clear_downstream_conn_for_lane, set_conn, clear_conn, is_conn, build_frame,
}
use t2d.Server.Lanes.Routing.{handle_lane_control-register}
use t2d.Server.Lanes.Frames.{next_ref-build_frame}

abbrev idle : DownstreamWriter
idle = record { ch = []; conn = none }

abbrev two_lanes : Server
two_lanes = record {
  down_writers = idle ∷ idle ∷ [];
  session_lane_map = (5, 7) ∷ [];
  sessions = (4, record { session_id = 4; downstream_conn = none }) ∷ [];
  contexts = (100, none) ∷ [];
  stats = new 0;
}

abbrev register : LaneControlPayload
register = record { subtype = 2; lane_id = 1; lane_count = 2; session_ids = 4 ∷ 6 ∷ [] }

handle_lane_control-register_example :
    All
      (λ sid. lane_for_session sid (handle_lane_control 100 (some register) two_lanes) ≡ 1)
      (4 ∷ 6 ∷ [])
unfolding context_lane load
handle_lane_control-register_example =
    handle_lane_control-register 100 register two_lanes refl refl (omega arith) (inl refl)

abbrev received : StreamBuffer
unfolding build_frame marshal_to new_data_packet
received = record {
  buf = build_frame 4 9 (1 ∷ 2 ∷ 3 ∷ []) ++ (0x54 ∷ []);
  off = 0;
  cap = 64;
  max_payload = pos 1500;
}

next_ref-build_frame_example :
    ((next_ref received).1
      ≡ found (record { header = new_data_packet 4 9 3; payload = 1 ∷ 2 ∷ 3 ∷ [] }))
    × (unread (next_ref received).0 ≡ 0x54 ∷ [])
unfolding build_frame marshal_to new_data_packet
next_ref-build_frame_example =
    next_ref-build_frame {b = received} 4 9 (1 ∷ 2 ∷ 3 ∷ []) (0x54 ∷ [])
      (record { off_in = omega arith; within_cap = omega arith }) (omega arith) (omega arith)
      (omega arith) refl refl

-- Connection 100 says hello on lane 0 and on lane 1, and closes: lane 0 still has it.
abbrev hello : ℕ → Option LaneControlPayload
hello lane =
    some (record { subtype = subtype_hello; lane_id = lane; lane_count = 2; session_ids = [] })

hello_twice :
    map
      (λ w. w.conn)
      (on_close 100 (
        handle_lane_control 100
          (hello 1)
          (handle_lane_control 100 (hello 0) two_lanes))).down_writers
    ≡ some 100 ∷ none ∷ []
unfolding handle_lane_control on_close close_lane ensure_context context_lane join_lane
    set_downstream_conn_for_lane clear_downstream_conn_for_lane set_conn clear_conn is_conn
hello_twice = refl
