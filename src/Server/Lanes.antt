-- ===== src/Server/Lanes.antt =====
-- internal/server/handlers.go and server.go: which downstream connection carries a lane, which lane
-- carries a session, and how a reply gets there. A connection is named by a number.
pub mod Routing
pub mod Frames
pub mod Replies
mod Tests
use t2d.Base.{
  ℕ, zero, suc, ◌+◌, ◌%◌, ◌^◌, List, [], ◌∷◌, ◌++◌, Bool, true, false, not, ◌&&◌, Option, none,
  some, length, ltb, ◌==◌, if◌then◌else◌, take, drop, copy, replicate,
}
use t2d.Base.Maps.{Map, load, store, modify}
use t2d.Protocol.Packet.{header_size, marshal_to, new_data_packet}
use t2d.Protocol.Packet.Assembly.{assemble}
use t2d.Protocol.Control.{
  LaneControlPayload, subtype_hello, subtype_lane_register, subtype_lane_heartbeat,
}
use t2d.Stats
use t2d.Stats.{Stats}

-- `downstreamWriter`: its channel and its connection.
pub record DownstreamWriter : Type 0 where
  pub ch : List (List ℕ)
  pub conn : Option ℕ

-- The fields of `BackendSession` that routing uses.
pub record BackendSession : Type 0 where
  pub session_id : ℕ
  pub downstream_conn : Option ℕ

-- `contexts` is what `c.Context()` returns for each connection: the lane, or none for -1; a
-- connection without an entry has no context.
pub record Server : Type 0 where
  pub down_writers : List DownstreamWriter
  pub session_lane_map : Map ℕ
  pub sessions : Map BackendSession
  pub contexts : Map (Option ℕ)
  pub stats : Stats

abbrev pub lane_count : Server → ℕ
lane_count s = length s.down_writers

unfoldable pub set_conn : ℕ → DownstreamWriter → DownstreamWriter
set_conn c w = record w { conn = some c }

unfoldable pub is_conn : ℕ → Option ℕ → Bool
is_conn c none = false
is_conn c (some d) = d == c

-- `if w.conn == conn { w.conn = nil }`
unfoldable pub clear_conn : ℕ → DownstreamWriter → DownstreamWriter
unfolding is_conn
clear_conn c w = if is_conn c w.conn then record w { conn = none } else w

pub set_downstream_conn_for_lane : ℕ → ℕ → Server → Server
unfolding set_conn modify
set_downstream_conn_for_lane lane c s =
    if ltb lane (lane_count s)
    then record s { down_writers = modify (set_conn c) lane s.down_writers }
    else s

pub clear_downstream_conn_for_lane : ℕ → ℕ → Server → Server
unfolding clear_conn modify
clear_downstream_conn_for_lane lane c s =
    if ltb lane (lane_count s)
    then record s { down_writers = modify (clear_conn c) lane s.down_writers }
    else s

-- The lane that was registered for a session, or one by its number.
unfoldable pub lane_for_session : ℕ → Server → ℕ
unfolding load
lane_for_session sid s =
    let by_number = sid % (lane_count s % 2 ^ 32) in
    elim (load sid s.session_lane_map) [
      | none ↦ by_number
      | some lane ↦ if ltb lane (lane_count s) then lane else by_number
    ]

-- `DownstreamHandler.OnOpen`
pub on_open : ℕ → Server → Server
unfolding store
on_open c s = record s { contexts = store c none s.contexts }

pub close_lane : Option (Option ℕ) → ℕ → Server → Server
unfolding clear_downstream_conn_for_lane
close_lane none c s = s
close_lane (some none) c s = s
close_lane (some (some lane)) c s = clear_downstream_conn_for_lane lane c s

-- `DownstreamHandler.OnClose`
pub on_close : ℕ → Server → Server
unfolding close_lane load
on_close c s = close_lane (load c s.contexts) c s

unfoldable pub context_lane : Option (Option ℕ) → Option ℕ
context_lane none = none
context_lane (some l) = l

-- `ctx.laneID = laneID; setDownstreamConnForLane(laneID, c)`
pub join_lane : ℕ → ℕ → Server → Server
unfolding set_downstream_conn_for_lane store
join_lane lane c s =
    set_downstream_conn_for_lane lane c (record s { contexts = store c (some lane) s.contexts })

pub register_session : ℕ → ℕ → Server → ℕ → Server
unfolding load store
register_session lane c s sid =
    let mapped = record s { session_lane_map = store sid lane s.session_lane_map } in
    elim (load sid s.sessions) [
      | none ↦ mapped
      | some sess ↦ record mapped {
        sessions = store sid (record sess { downstream_conn = some c }) s.sessions;
      }
    ]

pub register_sessions : ℕ → ℕ → Server → List ℕ → Server
register_sessions lane c s [] = s
register_sessions lane c s (sid ∷ sids) =
    register_sessions lane c (register_session lane c s sid) sids

-- The cases of a register and of a heartbeat, by the lane of the connection's context.
pub handle_register : Option ℕ → ℕ → ℕ → List ℕ → Server → Server
unfolding join_lane register_sessions
handle_register none lane c sids s = register_sessions lane c (join_lane lane c s) sids
handle_register (some l) lane c sids s =
    if l == lane then register_sessions lane c (join_lane lane c s) sids else s

pub handle_heartbeat : Option ℕ → ℕ → ℕ → Server → Server
unfolding join_lane set_downstream_conn_for_lane
handle_heartbeat none lane c s = join_lane lane c s
handle_heartbeat (some l) lane c s = set_downstream_conn_for_lane lane c s

-- `if ctx == nil { … c.SetContext(ctx) }`
pub ensure_context : ℕ → Server → Server
unfolding load store
ensure_context c s = elim (load c s.contexts) [
  | none ↦ record s { contexts = store c none s.contexts }
  | some _ ↦ s
]

pub handle_lane_control : ℕ → Option LaneControlPayload → Server → Server
unfolding ensure_context context_lane load join_lane handle_register handle_heartbeat
handle_lane_control c none s = s
handle_lane_control c (some ctrl) s0 =
    let lane = ctrl.lane_id in
    let s = ensure_context c s0 in
    let ctx = context_lane (load c s.contexts) in
    if not (ctrl.lane_count == lane_count s0)
    then s0
    else if not (ltb lane (lane_count s0))
    then s0
    else if ctrl.subtype == subtype_hello
    then join_lane lane c s
    else if ctrl.subtype == subtype_lane_register
    then handle_register ctx lane c ctrl.session_ids s
    else if ctrl.subtype == subtype_lane_heartbeat
    then handle_heartbeat ctx lane c s
    else s

-- `make(chan []byte, 32768)`
abbrev pub channel_size : ℕ
channel_size = 32768

-- `enqueue`: a full channel takes no frame.
unfoldable pub enqueue : List ℕ → DownstreamWriter → DownstreamWriter × Bool
enqueue frame w =
    if ltb (length w.ch) channel_size
    then (record w { ch = w.ch ++ (frame ∷ []) }, true)
    else (w, false)

-- `NewDataPacket`, and the slice with its bytes and the encrypted ones.
pub build_frame : ℕ → ℕ → List ℕ → List ℕ
unfolding assemble
build_frame session_id sequence_id body =
    assemble (new_data_packet session_id sequence_id (length body % 2 ^ 32)) body

pub enqueue_at : ℕ → List ℕ → List DownstreamWriter → List DownstreamWriter × Bool
unfolding enqueue
enqueue_at i frame [] = ([], false)
enqueue_at zero frame (w ∷ ws) = let (w', sent) = enqueue frame w in (w' ∷ ws, sent)
enqueue_at (suc i) frame (w ∷ ws) = let (ws', sent) = enqueue_at i frame ws in (w ∷ ws', sent)

-- `sendToDownstream`, for the session's number and the counter behind `NextSequenceID`, which only
-- the goroutine that reads the session's replies advances. The cipher is a parameter.
pub send_to_downstream : (List ℕ → Option (List ℕ)) → ℕ → ℕ → List ℕ → Server → Server × ℕ
unfolding lane_for_session enqueue_at build_frame
send_to_downstream encrypt sid counter bytes s =
    let lane = lane_for_session sid s in
    let next = (counter + 1) % 2 ^ 32 in
    if not (ltb lane (lane_count s)) then (s, counter) else elim (encrypt bytes) [
      | none ↦ (record s { stats = Stats.add_error s.stats }, counter)
      | some encrypted ↦
          let (writers, sent) = enqueue_at lane (build_frame sid next encrypted) s.down_writers in
          if sent
          then (record s { down_writers = writers }, next)
          else (record s { stats = Stats.add_error s.stats }, next)
    ]
