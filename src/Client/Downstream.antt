-- ===== src/Client/Downstream.antt =====
-- internal/client/client.go, handleDownstream with handleDownstreamPacket: what the read loop of a lane
-- does to the sessions, and the datagrams that it writes to the applications.
pub mod Deliver
pub mod Stream
use t2d.Base.{ℕ, List, [], ◌∷◌, ◌++◌, Bool, Option, none, some, Result}
use t2d.Protocol.Stream.{Frame}
use t2d.Client.Receive.{Sink}
use t2d.Client.Sessions.{Sessions, Datagram, handle_downstream_packet}
use t2d.Stats

-- The sessions and the datagrams written so far.
abbrev pub Outlet : Type 0
Outlet = Sessions × List Datagram

pub with_datagram : List Datagram → Option Datagram → List Datagram
with_datagram ds none = ds
with_datagram ds (some d) = ds ++ (d ∷ [])

module _ {E : Type 0} (decrypt : List ℕ → Result E (List ℕ)) (writes : Datagram → Bool)
    (clock : List Datagram → ℕ) where
  -- `c.handleDownstreamPacket(&frame.Header, frame.Payload)`, at the time that the clock shows.
  unfoldable pub handle_frame : Outlet → Frame → Outlet
  unfolding with_datagram
  handle_frame (s, ds) f =
      let (s', d) = handle_downstream_packet decrypt writes f.header f.payload (clock ds) s in
      (s', with_datagram ds d)

  -- `c.stats.AddBytesReceived(uint64(n))`
  unfoldable pub count_bytes : Outlet → ℕ → Outlet
  count_bytes (s, ds) n = (record s { stats = Stats.add_bytes_received n s.stats }, ds)

  unfoldable pub client_sink : Sink Outlet
  unfolding handle_frame count_bytes
  client_sink = record { add_bytes_received = count_bytes; handle_packet = handle_frame }
