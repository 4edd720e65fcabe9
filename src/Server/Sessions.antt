-- ===== src/Server/Sessions.antt =====
-- internal/server/server.go: the backend sessions. A packet of a client finds or makes its session and
-- goes on to the backend; sessions end when they expire or when their connection cannot be read. The
-- handlers run one at a time here.
pub mod Invariant
pub mod Order
pub mod Count
pub mod Serve
pub mod Turn
pub mod Served
pub mod First
pub mod Readers
mod Tests
use t2d.Base.{
  ℕ, ◌+◌, ◌-◌, List, [], ◌∷◌, Bool, true, false, Option, none, some, length, ◌==◌, if◌then◌else◌,
  Result, ok, err,
}
use t2d.Base.Int.{ℤ, pos, ltb_ℤ}
use t2d.Base.Maps.{Map, load, store, erase}
use t2d.Protocol.Packet.{PacketHeader, header_size}
use t2d.Server.Backend.{Backend, write_backend_packet}
use t2d.Server.Reorder.{ReorderState, fresh_state, reorder}
use t2d.Stats
use t2d.Stats.{Stats}

-- `session.BackendSession` with what its connection has taken and whether that is closed.
pub record BackendSession : Type 0 where
  pub session_id : ℕ
  pub last_active_unix_nano : ℕ
  pub sent : List (List ℕ)
  pub closed : Bool

-- The map holds pointers: `objects` is what stands at one, and those below `allocated` are in use.
-- `readers` are the sessions whose handleBackendData has not returned.
pub record SessionTable : Type 0 where
  pub sessions : Map ℕ
  pub objects : ℕ → BackendSession
  pub allocated : ℕ
  pub session_lane_map : Map ℕ
  pub upstream_reorder_states : Map ReorderState
  pub readers : List ℕ
  pub stats : Stats

-- A change to the object at a pointer.
pub change_object :
    (BackendSession → BackendSession) → ℕ → (ℕ → BackendSession) → ℕ → BackendSession
change_object f p objects q = if p == q then f (objects q) else objects q

pub update_last_active : ℕ → ℕ → SessionTable → SessionTable
unfolding change_object
update_last_active now p s = record s {
  objects = change_object (λ o. record o { last_active_unix_nano = now }) p s.objects;
}

-- `session.NewBackendSession`, `Store`, `AddActiveSession` and `go s.handleBackendData(sess)`
pub add_session : ℕ → ℕ → SessionTable → SessionTable
unfolding store change_object
add_session sid now s =
    let o : BackendSession = record {
      session_id = sid;
      last_active_unix_nano = now;
      sent = [];
      closed = false;
    } in
    record s {
      sessions = store sid s.allocated s.sessions;
      objects = change_object (λ _. o) s.allocated s.objects;
      allocated = s.allocated + 1;
      readers = s.allocated ∷ s.readers;
      stats = Stats.add_active_session s.stats;
    }

-- The session of a number, or a new one if the backend's address resolves and DialUDP succeeds.
pub find_session : Bool → ℕ → ℕ → SessionTable → SessionTable × Option ℕ
unfolding load update_last_active add_session
find_session dialed sid now s = elim (load sid s.sessions) [
  | some p ↦ (update_last_active now p s, some p)
  | none ↦
      if dialed
      then (add_session sid now s, some s.allocated)
      else (record s { stats = Stats.add_error s.stats }, none)
]

-- `LoadOrStore` of an empty state.
pub reorder_state : Option ReorderState → ReorderState
reorder_state none = fresh_state
reorder_state (some st) = st

-- What a session's connection and the counters become.
pub put_backend : ℕ → Backend → SessionTable → SessionTable
unfolding change_object
put_backend p b s = record s {
  objects = change_object (λ o. record o { sent = b.sent }) p s.objects;
  stats = b.stats;
}

-- `striped`, `window` and `hold` are the server's settings; which writes succeed is the network's
-- choice.
module _ (accepts : List (List ℕ) → List ℕ → Bool) (striped : Bool) (window hold : ℤ) where
  -- `writeUpstreamToBackend` with striping: the state of the session, the reordering, the write.
  pub write_in_order : ℕ → ℕ → List ℕ → ℕ → SessionTable → SessionTable
  unfolding load store reorder_state put_backend reorder
  write_in_order p seq payload now s =
      let sid = (s.objects p).session_id in
      let (st, b) =
        reorder accepts window hold
          (
            reorder_state (load sid s.upstream_reorder_states),
            record { sent = (s.objects p).sent; stats = s.stats },
          )
          seq payload now in
      record (put_backend p b s) {
        upstream_reorder_states = store sid st s.upstream_reorder_states;
      }

  pub write_upstream_to_backend : ℕ → ℕ → List ℕ → ℕ → SessionTable → SessionTable
  unfolding write_in_order put_backend write_backend_packet
  write_upstream_to_backend p seq payload now s =
      if striped
      then write_in_order p seq payload now s
      else put_backend p
          (write_backend_packet accepts (record { sent = (s.objects p).sent; stats = s.stats })
            payload).0
          s

  pub write_to_session : ℕ → List ℕ → ℕ → SessionTable × Option ℕ → SessionTable
  unfolding write_upstream_to_backend
  write_to_session seq payload now (s, none) = s
  write_to_session seq payload now (s, some p) = write_upstream_to_backend p seq payload now s

  module _ {E : Type 0} (decrypt : List ℕ → Result E (List ℕ)) where
    pub handle_upstream_packet : Bool → PacketHeader → List ℕ → ℕ → SessionTable → SessionTable
    unfolding find_session write_to_session
    handle_upstream_packet dialed header body now s =
        let received =
          Stats.add_bytes_received (header_size + length body)
            (Stats.add_packets_received 1 s.stats) in
        elim (decrypt body) [
          | err e ↦ record s { stats = Stats.add_error received }
          | ok payload ↦
              write_to_session header.sequence_id payload now
                (find_session dialed header.session_id now (record s { stats = received }))
        ]

pub close_session : ℕ → SessionTable → SessionTable
unfolding change_object
close_session p s = record s {
  objects = change_object (λ o. record o { closed = true }) p s.objects;
}

-- What follows a `LoadAndDelete` that has found a session.
pub forget_session : ℕ → SessionTable → SessionTable
unfolding erase
forget_session sid s = record s {
  sessions = erase sid s.sessions;
  session_lane_map = erase sid s.session_lane_map;
  upstream_reorder_states = erase sid s.upstream_reorder_states;
  stats = Stats.remove_active_session s.stats;
}

-- One round of the second loop of cleanupSessions.
pub expire_session : ℕ → SessionTable → SessionTable
unfolding load close_session forget_session
expire_session sid s = elim (load sid s.sessions) [
  | none ↦ s
  | some p ↦ forget_session sid (close_session p s)
]

-- The deferred call of handleBackendData: it deletes the session that has the number now.
pub end_reader : ℕ → SessionTable → SessionTable
unfolding load close_session forget_session
end_reader p s =
    let closed = close_session p s in
    let sid = (s.objects p).session_id in
    elim (load sid s.sessions) [ none ↦ closed | some q ↦ forget_session sid closed ]

unfoldable pub has_reader : ℕ → List ℕ → Bool
has_reader p [] = false
has_reader p (q ∷ qs) = let rest = has_reader p qs in if q == p then true else rest

pub drop_reader : ℕ → List ℕ → List ℕ
drop_reader p [] = []
drop_reader p (q ∷ qs) = let rest = drop_reader p qs in if q == p then qs else q ∷ rest

-- A round of handleBackendData whose read fails, with an error that counts or without.
pub fail_read : Bool → ℕ → SessionTable → SessionTable
unfolding has_reader drop_reader end_reader
fail_read counts p s =
    if has_reader p s.readers
    then end_reader p (record s {
      readers = drop_reader p s.readers;
      stats = if counts then Stats.add_error s.stats else s.stats;
    })
    else s

-- A round of it that reads a reply, up to sendToDownstream.
pub read_reply : List ℕ → ℕ → ℕ → SessionTable → SessionTable
unfolding has_reader update_last_active
read_reply reply now p s =
    if has_reader p s.readers
    then update_last_active now p (record s {
      stats = Stats.add_packets_received 1 (Stats.add_bytes_received (length reply) s.stats);
    })
    else s

-- `s.sessions.Range(…)`: the numbers of the expired sessions.
pub expired_sessions : ℤ → ℕ → (ℕ → BackendSession) → Map ℕ → List ℕ
expired_sessions timeout now objects [] = []
expired_sessions timeout now objects ((k, p) ∷ m) =
    let rest = expired_sessions timeout now objects m in
    if ltb_ℤ timeout (pos (now - (objects p).last_active_unix_nano))
    then (objects p).session_id ∷ rest
    else rest

pub expire_sessions : List ℕ → SessionTable → SessionTable
unfolding expire_session
expire_sessions [] s = s
expire_sessions (sid ∷ sids) s = expire_sessions sids (expire_session sid s)

-- A tick of cleanupSessions.
pub cleanup_sessions : ℤ → ℕ → SessionTable → SessionTable
unfolding expired_sessions expire_sessions
cleanup_sessions timeout now s =
    expire_sessions (expired_sessions timeout now s.objects s.sessions) s

pub new_table : Stats → SessionTable
new_table stats = record {
  sessions = [];
  objects = λ p. record { session_id = 0; last_active_unix_nano = 0; sent = []; closed = false };
  allocated = 0;
  session_lane_map = [];
  upstream_reorder_states = [];
  readers = [];
  stats = stats;
}

-- What happens to the sessions: a packet arrives, a connection is read, a session expires.
pub data Event : Type 0 where
  arrives : Bool → PacketHeader → List ℕ → ℕ → Event
  replies : List ℕ → ℕ → ℕ → Event
  read_fails : Bool → ℕ → Event
  ticks : ℤ → ℕ → Event

module _ (accepts : List (List ℕ) → List ℕ → Bool) (striped : Bool) (window hold : ℤ) {E : Type 0}
    (decrypt : List ℕ → Result E (List ℕ)) where
  pub step : SessionTable → Event → SessionTable
  unfolding handle_upstream_packet read_reply fail_read cleanup_sessions
  step s (arrives dialed header body now) =
      handle_upstream_packet accepts striped window hold decrypt dialed header body now s
  step s (replies reply now p) = read_reply reply now p s
  step s (read_fails counts p) = fail_read counts p s
  step s (ticks timeout now) = cleanup_sessions timeout now s

  pub run : SessionTable → List Event → SessionTable
  run s [] = s
  run s (e ∷ es) = run (step s e) es
