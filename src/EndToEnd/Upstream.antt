-- ===== src/EndToEnd/Upstream.antt =====
-- internal/client/client.go, handleUDP and sendToUpstream, against internal/server/handlers.go, OnTraffic
-- of the upstream handler: from an application to the backend.
mod Tests
use t2d.Base.{
  ℕ, suc, ◌+◌, ◌^◌, ◌≤◌, ◌<◌, ◌≡◌, sym, ◌∙◌, List, [], ◌∷◌, ◌++◌, Bool, true, false, none, arith,
  length, All, append-nil,
}
use t2d.Base.Int.{ℤ, pos}
use t2d.Base.Maps.{load}
use t2d.Client.Receive.Framing.{frames_bytes, stream_bytes}
use t2d.Client.Sessions.{Sessions, lane_for_session}
use t2d.Client.Sessions.Invariant.{Inv}
use t2d.Client.Send.{Incoming, UdpRead, datagram, handle_udp_all}
use t2d.Client.Send.Frames.{IsReadable, AreReadable}
use t2d.Client.Send.Carried.{lane_bytes, datagrams}
use t2d.Client.Send.First.{handle_udp_first-Carried}
use t2d.Crypto.{Cipher, decrypt}
use t2d.Crypto.Inverse.{IsSound}
use t2d.Server.Sessions.{SessionTable}
use t2d.Server.Sessions.Serve.{Awaits}
use t2d.Server.Sessions.Served.{handle}
use t2d.Server.Sessions.First.{Passes, handle_all-Passes}
use t2d.Server.Traffic.{GnetConn, IsGnetConn}
use t2d.Server.Traffic.Arrivals.{on_traffic_all, on_traffic_all-frames}

module _ {C : Type 0} (g : GnetConn C) (inbound : C → List ℕ) (law : IsGnetConn g inbound)
    (arrive : C → List ℕ → C)
    (inbound-arrive : (c : C) (bytes : List ℕ) → inbound (arrive c bytes) ≡ inbound c ++ bytes)
    (accepts : List (List ℕ) → List ℕ → Bool)
    (all_taken : (sent : List (List ℕ)) (p : List ℕ) → accepts sent p ≡ true) (striped : Bool)
    (window hold : ℤ) (dialed : SessionTable → Bool) (up : (s : SessionTable) → dialed s ≡ true)
    (clock : SessionTable → ℕ) (cipher : Cipher) (sound : IsSound cipher) (limit : ℕ)
    (width : suc limit < 2 ^ 32) (lanes : ℕ) (unmap : ℕ → ℕ) where
  -- A client without striping, whose sessions fit together, reads a datagram of an address that has no
  -- session and then datagrams of any addresses and errors in any order; each datagram is of bytes, the
  -- random source gives each its nonce, no ciphertext is beyond the server's limit, and neither the
  -- numbers of the sessions nor those of the packets wrap round. The server has the same cipher, which
  -- keeps its promises and does not know the number of the new session; on its connection, empty before,
  -- arrive just the bytes that the client has put on the session's lane, in chunks of any sizes with a
  -- call of OnTraffic after each; DialUDP and the writes to the backend succeed. Then the session's
  -- backend connection has got the payloads of all the datagrams of the address, in the order in which they were read, each once, with striping on the server or without
  -- and whatever packets of other sessions were between them.
  pub on_traffic-handle_udp :
      (d : Incoming) (rs : List UdpRead) (s : Sessions) (chunks : List (List ℕ)) (c : C)
      (table : SessionTable)
      → let sid = s.session_counter + 1 in
        Inv s
        → load (unmap d.addr) s.sessions ≡ none
        → IsReadable cipher (suc limit) d
        → All (AreReadable cipher (suc limit)) rs
        → s.session_counter + 1 + length rs < 2 ^ 32
        → length (datagrams unmap (unmap d.addr) rs) + 2 < 2 ^ 32
        → inbound c ≡ []
        → stream_bytes chunks
          ≡ lane_bytes
              (lane_for_session lanes sid)
              (handle_udp_all cipher false lanes false unmap (datagram d ∷ rs) s).1
        → Awaits sid table
        → Passes sid
            (d.buf ∷ datagrams unmap (unmap d.addr) rs)
            (on_traffic_all g arrive
              (handle accepts window hold (decrypt cipher) striped dialed clock)
              (pos (suc limit))
              (c, table)
              chunks).1
  on_traffic-handle_udp d rs s chunks c table inv free readable all ids seqs empty wire fresh =
      let r =
        handle_udp_first-Carried cipher limit sound width lanes unmap d rs s inv free readable all
          ids (omega (arith, seqs)) in
      let handled =
        on_traffic_all-frames g inbound law limit
          (handle accepts window hold (decrypt cipher) striped dialed clock) arrive inbound-arrive
          chunks r.frames c table r.good empty (wire ∙ sym r.wire) in
      rw (handled.0) (
        handle_all-Passes accepts window hold striped (decrypt cipher) all_taken dialed up clock
          r.frames table r.carries (omega (arith, seqs)) fresh)
