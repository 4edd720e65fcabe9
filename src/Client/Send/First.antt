-- ===== src/Client/Send/First.antt =====
-- internal/client/client.go, handleUDP: an application from its first datagram on.
use t2d.Base.{ℕ, suc, ◌+◌, ◌^◌, ◌≤◌, ◌<◌, ◌≡◌, List, ◌∷◌, false, none, arith, length, All}
use t2d.Base.Maps.{load}
use t2d.Client.Sessions.{Sessions, update_object, lane_for_session}
use t2d.Client.Sessions.Invariant.{Inv}
use t2d.Client.Sessions.Talks.{
  Talks, Inv-stats, draw-Talks, get_or_create-counter, get_or_create_new,
}
use t2d.Client.Send.{Incoming, UdpRead, datagram, handle_udp_all}
use t2d.Client.Send.Frames.{IsReadable, AreReadable, found}
use t2d.Client.Send.Carried.{Carried, datagrams, draw, own-Carried, handle_udp_all-Carried}
use t2d.Crypto.{Cipher}
use t2d.Crypto.Inverse.{IsSound}

-- Where no session has the address of the first datagram, the new session's number is the next one of
-- the counter, its packets are numbered from 1 on, and its lane carries all that the application sends.
pub handle_udp_first-Carried :
    (cipher : Cipher) (limit : ℕ)
    → IsSound cipher
    → suc limit < 2 ^ 32
    → (lanes : ℕ) (unmap : ℕ → ℕ) (d : Incoming) (rs : List UdpRead) (s : Sessions) → Inv s
    → load (unmap d.addr) s.sessions ≡ none
    → IsReadable cipher (suc limit) d
    → All (AreReadable cipher (suc limit)) rs
    → s.session_counter + 1 + length rs < 2 ^ 32
    → 1 + length (datagrams unmap (unmap d.addr) rs) < 2 ^ 32
    → let sid = s.session_counter + 1 in
      Carried cipher limit sid
        (lane_for_session lanes sid)
        1
        (d.buf ∷ datagrams unmap (unmap d.addr) rs)
        (handle_udp_all cipher false lanes false unmap (datagram d ∷ rs) s).1
unfolding update_object
handle_udp_first-Carried cipher limit sound width lanes unmap d rs s inv free readable all ids
      seqs =
    let sid = s.session_counter + 1 in
    let (t, q) = found cipher false lanes unmap d s in
    let v : Talks (unmap d.addr) q sid 0 t =
      get_or_create_new unmap d.addr d.now _ free (omega (arith, ids)) (Inv-stats _ inv) in
    let counter : t.session_counter ≤ s.session_counter + 1 =
      get_or_create-counter unmap d.addr d.now _ in
    own-Carried cipher limit sid sound width lanes unmap (unmap d.addr) d rs s 0 readable
      (omega arith) (omega (arith, ids)) v
      (handle_udp_all-Carried cipher limit sid sound width lanes unmap (unmap d.addr) rs
        (draw cipher limit sid sound width lanes unmap (unmap d.addr) (t, q)) 1 q all
        (omega (arith, counter, ids)) (omega (arith, seqs)) (omega (arith, ids))
        (draw-Talks t (omega arith) v))
