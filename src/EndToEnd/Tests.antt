-- ===== src/EndToEnd/Tests.antt =====
-- Lane 1 of two registers two sessions on a fresh connection.
use t2d.Base.{ℕ, ◌≡◌, refl, inl, List, [], ◌∷◌, ◌++◌, Bool, true, some, none, arith, All}
use t2d.Base.Maps.{load}
use t2d.Protocol.Packet.{marshal_to, new_control_packet}
use t2d.Protocol.Packet.Assembly.{assemble}
use t2d.Protocol.Control.{marshal, new_control_packet_payload, subtype_lane_register}
use t2d.Stats.{new}
use t2d.Client.LaneControl.{ControlLoop, send_lane_control}
use t2d.Server.Lanes.{Server, DownstreamWriter, lane_for_session, context_lane}
use t2d.Server.Traffic.{handle_control_frame, max_downstream_control_payload}
use t2d.Server.Traffic.Memory.{memory_conn, memory_conn-IsGnetConn, memory_arrive, in_two}
use t2d.Server.Traffic.Arrivals.{on_traffic_all}
use t2d.EndToEnd.Registration.{send_lane_control-routes}

abbrev always : List (List ℕ) → List ℕ → Bool
always sent bytes = true

abbrev connected : ControlLoop
connected = record {
  lane = record { id = 1; conn = some 5; reconnect = true };
  stats = new 0;
  pending = [];
  sent = [];
}

abbrev idle : DownstreamWriter
idle = record { ch = []; conn = none }

abbrev two_lanes : Server
two_lanes = record {
  down_writers = idle ∷ idle ∷ [];
  session_lane_map = (5, 0) ∷ [];
  sessions = (4, record { session_id = 4; downstream_conn = none }) ∷ [];
  contexts = (100, none) ∷ [];
  stats = new 0;
}

-- The header of 20 bytes, and the control payload of 16.
abbrev wire : List ℕ
wire =
    0x54 ∷ 0x43 ∷ 0x50 ∷ 0x50 ∷ 1 ∷ 3 ∷ 0 ∷ 0 ∷ 0 ∷ 0 ∷ 0 ∷ 1 ∷ 0 ∷ 0 ∷ 0 ∷ 0 ∷ 0 ∷ 0 ∷ 0 ∷ 16 ∷ 2
    ∷ 0 ∷ 0 ∷ 1 ∷ 0 ∷ 2 ∷ 0 ∷ 2 ∷ 0 ∷ 0 ∷ 0 ∷ 4 ∷ 0 ∷ 0 ∷ 0 ∷ 5 ∷ []

wire_sent :
    (send_lane_control always 2 subtype_lane_register (4 ∷ 5 ∷ []) connected).sent
    ≡ connected.sent ++ (wire ∷ [])
unfolding send_lane_control new_control_packet_payload marshal assemble marshal_to
    new_control_packet
wire_sent = refl

send_lane_control-routes_example :
    All
      (λ sid.
        lane_for_session sid
          (on_traffic_all memory_conn memory_arrive
            (handle_control_frame 100)
            max_downstream_control_payload
            ([], two_lanes)
            (in_two 7 wire)).1
        ≡ 1)
      (4 ∷ 5 ∷ [])
unfolding context_lane load
send_lane_control-routes_example =
    send_lane_control-routes memory_conn (λ c. c) memory_conn-IsGnetConn memory_arrive
      (λ c bytes. refl) always 2 (4 ∷ 5 ∷ []) wire (in_two 7 wire) connected 100 [] two_lanes
      (omega arith, (omega arith, tt)) (omega arith) wire_sent refl refl refl (omega arith)
      (omega arith) (inl refl)
