-- ===== src/Client/LaneControl.antt =====
-- internal/client/client.go, sendLaneControl and downstreamControlLoop: what a downstream lane tells
-- the server. `slices.Sort` is a parameter, and so is which writes to the connection succeed.
pub mod Sent
use t2d.Base.{
  ℕ, ◌+◌, ◌%◌, ◌^◌, List, [], ◌∷◌, ◌++◌, Bool, true, false, Option, none, some, length, ◌==◌,
  if◌then◌else◌, Result, ok, err,
}
use t2d.Protocol.Error.{ProtocolError}
use t2d.Protocol.Packet.{PacketHeader}
use t2d.Protocol.Packet.Assembly.{assemble}
use t2d.Protocol.Control.{
  LaneControlPayload, new_control_packet_payload, subtype_hello, subtype_lane_register,
  subtype_lane_heartbeat,
}
use t2d.Stats
use t2d.Stats.{Stats}

-- `downstreamLane`: a connection is a number, and the channel `reconnect` holds one token or none.
pub record DownstreamLane : Type 0 where
  pub id : ℕ
  pub conn : Option ℕ
  pub reconnect : Bool

-- A lane's control loop: `pending` are the keys of its set, and `sent` is all that was written.
pub record ControlLoop : Type 0 where
  pub lane : DownstreamLane
  pub stats : Stats
  pub pending : List ℕ
  pub sent : List (List ℕ)

module _ (writes : List (List ℕ) → List ℕ → Bool) (lane_count : ℕ) where
  -- `lane.conn.Write(frame)` and what an error of it leads to.
  unfoldable pub write_frame : List ℕ → ControlLoop → ControlLoop
  write_frame frame s =
      if writes s.sent frame then record s { sent = s.sent ++ (frame ∷ []) } else record s {
        lane = record s.lane { conn = none; reconnect = true };
        stats = Stats.add_error s.stats;
      }

  -- `&protocol.LaneControlPayload{…}`
  unfoldable pub lane_control : ℕ → List ℕ → DownstreamLane → LaneControlPayload
  lane_control subtype ids lane = record {
    subtype = subtype;
    lane_id = lane.id % 2 ^ 16;
    lane_count = lane_count % 2 ^ 16;
    session_ids = ids;
  }

  -- The header and the payload, or the error that building them gave.
  unfoldable pub send_packet :
      Result ProtocolError (PacketHeader × List ℕ) → ControlLoop → ControlLoop
  unfolding write_frame
  send_packet (err e) s = record s { stats = Stats.add_error s.stats }
  send_packet (ok (header, payload)) s = write_frame (assemble header payload) s

  unfoldable pub send_lane_control : ℕ → List ℕ → ControlLoop → ControlLoop
  unfolding send_packet lane_control
  send_lane_control subtype ids s = elim s.lane.conn [
    | none ↦ s
    | some c ↦ send_packet (new_control_packet_payload 0 (some (lane_control subtype ids s.lane))) s
  ]

  module _ (sort : List ℕ → List ℕ) where
    -- `flushPending`
    pub flush_ids : List ℕ → ControlLoop → ControlLoop
    unfolding send_lane_control
    flush_ids [] s = s
    flush_ids (sid ∷ sids) s =
        send_lane_control subtype_lane_register (sort (sid ∷ sids)) (record s { pending = [] })

    pub has_id : ℕ → List ℕ → Bool
    has_id sid [] = false
    has_id sid (k ∷ ks) = let rest = has_id sid ks in if k == sid then true else rest

    -- The cases of the loop's `select`: a number from the channel, and the two tickers.
    pub data Event : Type 0 where
      registers : ℕ → Event
      flushes : Event
      beats : Event

    pub step : ControlLoop → Event → ControlLoop
    unfolding flush_ids has_id send_lane_control
    step s (registers sid) =
        if has_id sid s.pending then s else record s { pending = sid ∷ s.pending }
    step s flushes = flush_ids s.pending s
    step s beats = send_lane_control subtype_lane_heartbeat [] (flush_ids s.pending s)

    pub run : ControlLoop → List Event → ControlLoop
    run s [] = s
    run s (e ∷ es) = run (step s e) es

    -- `downstreamControlLoop` on a connection: a hello, and then the loop.
    pub control_loop : ControlLoop → List Event → ControlLoop
    unfolding send_lane_control run
    control_loop s es = run (send_lane_control subtype_hello [] s) es
