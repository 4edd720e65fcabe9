-- ===== src/EndToEnd/Registration.antt =====
-- internal/client/client.go, sendLaneControl, against internal/server/handlers.go, OnTraffic of the
-- downstream handler.
use t2d.Base.{
  ℕ, ◌%◌, ◌^◌, ◌≤◌, ◌<◌, ◌≡◌, refl, sym, ◌∙◌, subst, List, [], ◌∷◌, ◌++◌, Bool, some, arith, length,
  All, IsU32, append-nil, ◌⊎◌, none, ok,
}
use t2d.Base.Maps.{load}
use t2d.Protocol.Packet.{new_control_packet}
use t2d.Protocol.Control.{LaneControlPayload, IsControl, marshal, subtype_lane_register}
use t2d.Protocol.Control.RoundTrip.{unmarshal_lane_control-marshal}
use t2d.Client.LaneControl.{ControlLoop, lane_control, send_lane_control}
use t2d.Client.LaneControl.Sent.{control_frame, send_lane_control-sent, control_frame-IsFrame}
use t2d.Server.Lanes.{Server, lane_count, lane_for_session, handle_lane_control, context_lane}
use t2d.Server.Lanes.Routing.{handle_lane_control-register}
use t2d.Server.Traffic.{GnetConn, IsGnetConn, handle_control_frame, max_downstream_control_payload}
use t2d.Client.Receive.Framing.{frames_bytes, stream_bytes}
use t2d.Protocol.Stream.Step.{frame_bytes}
use t2d.Server.Traffic.Arrivals.{on_traffic_all, on_traffic_all-frames}

-- The server's handler of the frame that a control payload makes.
handle_control_frame-sent :
    (conn : ℕ) (s : Server) (ctrl : LaneControlPayload) (payload : List ℕ)
    → IsControl ctrl
    → marshal (some ctrl) ≡ ok payload
    → handle_control_frame conn s (control_frame ctrl payload).header payload
      ≡ handle_lane_control conn (some ctrl) s
unfolding handle_control_frame new_control_packet
handle_control_frame-sent conn s ctrl payload v good =
    rw (unmarshal_lane_control-marshal v good, handle_control_frame) refl

module _ {C : Type 0} (g : GnetConn C) (inbound : C → List ℕ) (law : IsGnetConn g inbound)
    (arrive : C → List ℕ → C)
    (inbound-arrive : (c : C) (bytes : List ℕ) → inbound (arrive c bytes) ≡ inbound c ++ bytes)
    (writes : List (List ℕ) → List ℕ → Bool) (lanes : ℕ) where
  -- What sendLaneControl has written in one frame, for a subtype of one byte and at most 16382 ids of 32
  -- bits: when just these bytes arrive on the server's connection, empty before, in chunks of any sizes,
  -- the calls of OnTraffic of the downstream handler do with them what handleLaneControl does with the client's control payload.
  pub send_lane_control-on_traffic :
      (subtype : ℕ) (ids x : List ℕ) (chunks : List (List ℕ)) (client : ControlLoop) (conn : ℕ)
      (c : C) (server : Server)
      → subtype < 2 ^ 8
      → All IsU32 ids
      → length ids ≤ 16382
      → (send_lane_control writes lanes subtype ids client).sent ≡ client.sent ++ (x ∷ [])
      → inbound c ≡ []
      → stream_bytes chunks ≡ x
      → (on_traffic_all g arrive
          (handle_control_frame conn)
          max_downstream_control_payload
          (c, server)
          chunks).1
        ≡ handle_lane_control conn (some (lane_control writes lanes subtype ids client.lane)) server
  unfolding lane_control
  send_lane_control-on_traffic subtype ids x chunks client conn c server small range few sent empty
        same =
      let ctrl = lane_control writes lanes subtype ids client.lane in
      let (payload, good, bytes) = send_lane_control-sent writes lanes subtype ids x client sent in
      let v : IsControl ctrl = record {
        subtype_u8 = small;
        lane_id_u16 = omega arith;
        lane_count_u16 = omega arith;
        session_ids_u32 = range;
      } in
      let f = control_frame ctrl payload in
      let whole : stream_bytes chunks ≡ frames_bytes (f ∷ []) =
        same ∙ bytes ∙ sym (append-nil (frame_bytes f)) in
      (on_traffic_all-frames g inbound law 65535 (handle_control_frame conn) arrive inbound-arrive
        chunks (f ∷ []) c server
        (control_frame-IsFrame ctrl payload 65536 v good (omega arith) (omega arith), tt) empty
        whole).0
      ∙ handle_control_frame-sent conn server ctrl payload v good

  -- What sendLaneControl has written in one register frame, for at most 16382 ids of 32 bits, when just
  -- these bytes arrive on the server's connection, empty before, in chunks of any sizes with a call of
  -- OnTraffic of the downstream handler after each; the client's and the server's lane counts are the
  -- same number of 16 bits, the lane's number is below it, and the connection is on no lane yet or on
  -- this one: afterwards the server routes each of the ids to this lane.
  pub send_lane_control-routes :
      (ids x : List ℕ) (chunks : List (List ℕ)) (client : ControlLoop) (conn : ℕ) (c : C)
      (server : Server)
      → All IsU32 ids
      → length ids ≤ 16382
      → (send_lane_control writes lanes subtype_lane_register ids client).sent
        ≡ client.sent ++ (x ∷ [])
      → inbound c ≡ []
      → stream_bytes chunks ≡ x
      → lanes ≡ lane_count server
      → lanes < 2 ^ 16
      → client.lane.id < lanes
      → (context_lane (load conn server.contexts) ≡ none)
        ⊎ (context_lane (load conn server.contexts) ≡ some client.lane.id)
      → All
          (λ sid.
            lane_for_session sid
              (on_traffic_all g arrive
                (handle_control_frame conn)
                max_downstream_control_payload
                (c, server)
                chunks).1
            ≡ client.lane.id)
          ids
  unfolding lane_control
  send_lane_control-routes ids x chunks client conn c server range few sent empty same both width
        inside free =
      let handled =
        send_lane_control-on_traffic subtype_lane_register ids x chunks client conn c server
          (omega arith) range few sent empty same in
      let this_count : lanes % 2 ^ 16 ≡ lane_count server = omega arith in
      let this_lane : client.lane.id % 2 ^ 16 ≡ client.lane.id = omega arith in
      let ctrl = lane_control writes lanes subtype_lane_register ids client.lane in
      let routed = handle_lane_control-register conn ctrl server refl this_count (omega arith) (
        subst
          (λ (n : ℕ).
            (context_lane (load conn server.contexts) ≡ none)
            ⊎ (context_lane (load conn server.contexts) ≡ some n))
          (sym this_lane) free) in
      rw handled (
        subst
          (λ (n : ℕ).
            All (λ sid. lane_for_session sid (handle_lane_control conn (some ctrl) server) ≡ n) ids)
          this_lane routed)
