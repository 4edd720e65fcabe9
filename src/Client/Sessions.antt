-- ===== src/Client/Sessions.antt =====
-- internal/client/client.go: the sessions of the local applications, by address and by number, and the
-- way of a reply to its application. An address with its port is a number.
pub mod Invariant
pub mod Create
pub mod Remove
pub mod Steps
pub mod Routing
pub mod Talks
pub mod Count
mod Tests
use t2d.Base.{
  ℕ, zero, suc, ◌+◌, ◌%◌, ◌^◌, List, [], ◌∷◌, ◌++◌, map, Bool, true, false, Option, none, some,
  length, ltb, ◌==◌, if◌then◌else◌, Result, ok, err,
}
use t2d.Base.Int.{ℤ}
use t2d.Base.Maps.{Map, load, store, erase, modify}
use t2d.Protocol.Packet.{PacketHeader, packet_type_heartbeat}
use t2d.Session.{
  UdpSession, new_udp_session_addr_port, update_last_active, next_sequence_id, is_expired,
}
use t2d.Stats
use t2d.Stats.{Stats}

-- The two maps hold pointers to the same session objects: `objects` is what stands at a pointer, and
-- the pointers below `allocated` are in use. `register_chs` are the channels of the downstream lanes.
pub record Sessions : Type 0 where
  pub sessions : Map ℕ
  pub sessions_by_id : Map ℕ
  pub objects : ℕ → UdpSession
  pub allocated : ℕ
  pub session_counter : ℕ
  pub register_chs : List (List ℕ)
  pub stats : Stats

abbrev pub put_object : (ℕ → UdpSession) → ℕ → UdpSession → ℕ → UdpSession
put_object f i o j = if i == j then o else f j

-- A change to the session object at a pointer.
unfoldable pub update_object : (UdpSession → UdpSession) → ℕ → Sessions → Sessions
update_object f p s = record s { objects = put_object s.objects p (f (s.objects p)) }

-- `make(chan uint32, 4096)`
abbrev pub register_ch_size : ℕ
register_ch_size = 4096

pub offer : ℕ → List ℕ → List ℕ
offer sid ch = if ltb (length ch) register_ch_size then ch ++ (sid ∷ []) else ch

-- `downstreamLaneForSession`, for the number of lanes.
unfoldable pub lane_for_session : ℕ → ℕ → ℕ
lane_for_session lanes sid = sid % (lanes % 2 ^ 32)

unfoldable pub register_session_on_lane : ℕ → Sessions → Sessions
unfolding offer lane_for_session modify
register_session_on_lane sid s = record s {
  register_chs = modify (offer sid) (lane_for_session (length s.register_chs) sid) s.register_chs;
}

-- `netip.AddrPortFrom(addr.Addr().Unmap(), addr.Port())` is the caller's; the listener is 0.
unfoldable pub create_session : ℕ → ℕ → Sessions → Sessions × ℕ
unfolding store register_session_on_lane
create_session addr now s =
    let sid = (s.session_counter + 1) % 2 ^ 32 in
    let p = s.allocated in
    (
      register_session_on_lane sid (record s {
        session_counter = sid;
        objects = put_object s.objects p (new_udp_session_addr_port sid (some 0) addr now);
        allocated = p + 1;
        sessions = store addr p s.sessions;
        sessions_by_id = store sid p s.sessions_by_id;
        stats = Stats.add_active_session s.stats;
      }),
      p,
    )

unfoldable pub get_or_create_session : (ℕ → ℕ) → ℕ → ℕ → Sessions → Sessions × ℕ
unfolding load create_session update_object
get_or_create_session unmap addr now s = elim (load (unmap addr) s.sessions) [
  | some p ↦ (update_object (update_last_active now) p s, p)
  | none ↦ create_session (unmap addr) now s
]

-- What is written to the UDP listener: the bytes and where to.
pub record Datagram : Type 0 where
  pub bytes : List ℕ
  pub to : ℕ

module _ {E : Type 0} (decrypt : List ℕ → Result E (List ℕ)) where
  -- `WriteToUDPAddrPort` and what follows, for whether the write succeeds.
  unfoldable pub deliver : Bool → ℕ → List ℕ → ℕ → Sessions → Sessions
  unfolding update_object
  deliver true p bytes now s =
      let counted = Stats.add_packets_sent 1 (Stats.add_bytes_sent (length bytes) s.stats) in
      update_object (update_last_active now) p (record s { stats = counted })
  deliver false p bytes now s = record s { stats = Stats.add_error s.stats }

  -- `handleDownstreamPacket`: the new state and the datagram that is written, if any.
  unfoldable pub handle_downstream_packet :
      (Datagram → Bool) → PacketHeader → List ℕ → ℕ → Sessions → Sessions × Option Datagram
  unfolding load deliver
  handle_downstream_packet writes header body now s =
      if header.type == packet_type_heartbeat then (s, none) else elim (decrypt body) [
        | err e ↦ (record s { stats = Stats.add_error s.stats }, none)
        | ok bytes ↦ elim (load header.session_id s.sessions_by_id) [
          | none ↦ (s, none)
          | some p ↦
              let d : Datagram = record { bytes = bytes; to = (s.objects p).remote_addr_port } in
              (deliver (writes d) p bytes now s, some d)
        ]
      ]

-- One round of the second loop of cleanupSessions: `LoadAndDelete` and what follows.
pub remove_session : ℕ → Sessions → Sessions
unfolding load erase
remove_session key s = elim (load key s.sessions) [
  | none ↦ s
  | some p ↦ record s {
    sessions = erase key s.sessions;
    sessions_by_id = erase (s.objects p).session_id s.sessions_by_id;
    stats = Stats.remove_active_session s.stats;
  }
]

-- `c.sessions.Range(…)`: the keys of the expired sessions.
pub expired_keys : ℤ → ℕ → (ℕ → UdpSession) → Map ℕ → List ℕ
expired_keys timeout now objects [] = []
expired_keys timeout now objects ((k, p) ∷ m) =
    let rest = expired_keys timeout now objects m in
    if is_expired timeout now (objects p) then k ∷ rest else rest

pub remove_sessions : List ℕ → Sessions → Sessions
remove_sessions [] s = s
remove_sessions (k ∷ ks) s = remove_sessions ks (remove_session k s)

-- A tick of cleanupSessions.
pub cleanup_sessions : ℤ → ℕ → Sessions → Sessions
unfolding expired_keys remove_sessions
cleanup_sessions timeout now s = remove_sessions (expired_keys timeout now s.objects s.sessions) s

-- `registerAllSessionsForLane`: the numbers that it collects, in the order of the map, which it
-- sorts before it sends them.
pub ids_for_lane : ℕ → ℕ → Map ℕ → List ℕ
unfolding lane_for_session
ids_for_lane lanes lane [] = []
ids_for_lane lanes lane ((sid, p) ∷ m) =
    let rest = ids_for_lane lanes lane m in
    if lane_for_session lanes sid == lane then sid ∷ rest else rest

-- `New`: no sessions, and a channel for each lane.
unfoldable pub new_sessions : List (List ℕ) → Stats → Sessions
new_sessions chs stats = record {
  sessions = [];
  sessions_by_id = [];
  objects = λ p. new_udp_session_addr_port 0 none 0 0;
  allocated = 0;
  session_counter = 0;
  register_chs = chs;
  stats = stats;
}

-- What happens to the sessions, one at a time: a datagram arrives, a number is drawn for a packet, a
-- session is removed as expired (whichever it is: it may have been touched since it was listed), a
-- reply arrives.
pub data Event : Type 0 where
  arrives : ℕ → ℕ → Event
  numbers : ℕ → Event
  expires : ℕ → Event
  replies : PacketHeader → List ℕ → ℕ → Event

module _ {E : Type 0} (unmap : ℕ → ℕ) (decrypt : List ℕ → Result E (List ℕ))
    (writes : Datagram → Bool) where
  pub step : Sessions → Event → Sessions
  unfolding get_or_create_session update_object remove_session handle_downstream_packet
  step s (arrives addr now) = (get_or_create_session unmap addr now s).0
  step s (numbers p) = update_object (λ o. (next_sequence_id o).0) p s
  step s (expires key) = remove_session key s
  step s (replies header body now) = (handle_downstream_packet decrypt writes header body now s).0

  pub run : Sessions → List Event → Sessions
  run s [] = s
  run s (e ∷ es) = run (step s e) es
