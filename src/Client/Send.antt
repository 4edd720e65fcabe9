-- ===== src/Client/Send.antt =====
-- internal/client/client.go, handleUDP, handleUDPZeroCopy and sendToUpstream: from a datagram of an
-- application to the packet for a lane's ring, which Client/Ring/System takes from there.
pub mod Frames
pub mod Carried
pub mod First
pub mod ZeroCopy
use t2d.Base.{
  ℕ, ◌%◌, ◌^◌, List, [], ◌∷◌, Bool, Option, none, some, length, if◌then◌else◌, Result, ok, err,
}
use t2d.Protocol.Packet.{new_data_packet}
use t2d.Protocol.Packet.Assembly.{assemble}
use t2d.Session.{next_sequence_id}
use t2d.Client.Sessions.{Sessions, update_object, get_or_create_session, lane_for_session}
use t2d.Crypto.{Cipher, encrypt}
use t2d.Stats

-- A datagram, as many bytes of it as the buffer takes, its sender, the nonce that encrypting it draws,
-- and the time.
pub record Incoming : Type 0 where
  pub buf : List ℕ
  pub addr : ℕ
  pub nonce : Result ℕ (List ℕ)
  pub now : ℕ

-- What `ReadFromUDPAddrPort` returns; an error is one of a closed listener or another.
pub data UdpRead : Type 0 where
  closed : UdpRead
  failed : UdpRead
  datagram : Incoming → UdpRead

-- The number of a lane and the bytes of a packet for its ring.
pub record Outgoing : Type 0 where
  pub lane : ℕ
  pub bytes : List ℕ

module _ (cipher : Cipher) (stripe : Bool) (lanes : ℕ) where
  -- `selectUpstreamLane` and `upstreamLaneForSession`
  pub select_upstream_lane : ℕ → ℕ → ℕ
  unfolding lane_for_session
  select_upstream_lane sid seq =
      if stripe then lane_for_session lanes seq else lane_for_session lanes sid

  -- The packet of a body, under the next number of the session at a pointer.
  pub number_packet : ℕ → List ℕ → Sessions → Sessions × Option Outgoing
  unfolding select_upstream_lane update_object next_sequence_id
  number_packet p body s =
      let sid = (s.objects p).session_id in
      let seq = (next_sequence_id (s.objects p)).1 in
      (
        update_object (λ o. (next_sequence_id o).0) p s,
        some (record {
          lane = select_upstream_lane sid seq;
          bytes = assemble (new_data_packet sid seq (length body % 2 ^ 32)) body;
        }),
      )

  -- `sendToUpstream`
  pub send_to_upstream : Incoming → Sessions × ℕ → Sessions × Option Outgoing
  unfolding number_packet
  send_to_upstream d (s, p) = elim (encrypt cipher d.nonce d.buf) [
    | err e ↦ (record s { stats = Stats.add_error s.stats }, none)
    | ok body ↦ number_packet p body s
  ]

  -- The packet that handleUDPZeroCopy builds, which it does not encrypt.
  pub send_zero_copy : Incoming → Sessions × ℕ → Sessions × Option Outgoing
  unfolding number_packet
  send_zero_copy d (s, p) = number_packet p d.buf s

  module _ (zero_copy : Bool) (unmap : ℕ → ℕ) where
    -- A round of the loop.
    pub handle_udp : UdpRead → Sessions → Sessions × Option Outgoing
    unfolding get_or_create_session send_to_upstream send_zero_copy
    handle_udp closed s = (s, none)
    handle_udp failed s = (record s { stats = Stats.add_error s.stats }, none)
    handle_udp (datagram d) s =
        let received =
          Stats.add_packets_received 1 (Stats.add_bytes_received (length d.buf) s.stats) in
        let found = get_or_create_session unmap d.addr d.now (record s { stats = received }) in
        if zero_copy then send_zero_copy d found else send_to_upstream d found

    pub with_outgoing : Option Outgoing → List Outgoing → List Outgoing
    with_outgoing none os = os
    with_outgoing (some o) os = o ∷ os

    pub handle_udp_all : List UdpRead → Sessions → Sessions × List Outgoing
    unfolding handle_udp with_outgoing
    handle_udp_all [] s = (s, [])
    handle_udp_all (r ∷ rs) s =
        let (s', o) = handle_udp r s in
        let (end, os) = handle_udp_all rs s' in (end, with_outgoing o os)
