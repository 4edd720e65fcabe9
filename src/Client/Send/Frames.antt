-- ===== src/Client/Send/Frames.antt =====
-- internal/client/client.go, handleUDP and sendToUpstream: the frame of a datagram.
use t2d.Base.{
  ℕ, ◌+◌, ◌^◌, ◌≤◌, ◌<◌, ◌≡◌, refl, ap, ◌∙◌, List, Bool, false, some, arith, length, ok, IsBytes,
}
use t2d.Protocol.Stream.Step.{frame_bytes}
use t2d.Protocol.Stream.DataFrame.{data_frame, data_frame_lem}
use t2d.Session.{UdpSession, next_sequence_id}
use t2d.Client.Sessions.{Sessions, update_object, get_or_create_session}
use t2d.Client.Send.{
  Incoming, UdpRead, closed, failed, datagram, select_upstream_lane, number_packet,
  send_to_upstream, handle_udp,
}
use t2d.Crypto.{Cipher, encrypt, decrypt, overhead}
use t2d.Crypto.Inverse.{IsSound, nonce_size, decrypt-encrypt}
use t2d.Stats

-- A datagram whose encryption the random source serves, and whose ciphertext is no longer than the limit.
pub record IsReadable (cipher : Cipher) (limit : ℕ) (d : Incoming) : Type 0 where
  pub drawn : List ℕ
  pub nonce : d.nonce ≡ ok drawn
  pub size : length drawn ≡ nonce_size cipher
  pub bytes : IsBytes d.buf
  pub fits : length d.buf + overhead cipher ≤ limit

abbrev pub AreReadable : Cipher → ℕ → UdpRead → Type 0
AreReadable cipher limit closed = Unit
AreReadable cipher limit failed = Unit
AreReadable cipher limit (datagram d) = IsReadable cipher limit d

-- A session's frame under the next number.
abbrev pub next_frame : UdpSession → List ℕ → List ℕ
next_frame o body = frame_bytes (data_frame o.session_id (next_sequence_id o).1 body)

module _ (cipher : Cipher) (stripe : Bool) (lanes : ℕ) where
  number_packet_lem :
      (p : ℕ) (body : List ℕ) (s : Sessions)
      → length body < 2 ^ 32
      → number_packet cipher stripe lanes p body s ≡ (
        update_object (λ o. (next_sequence_id o).0) p s,
        some (record {
          lane =
              select_upstream_lane cipher stripe lanes
                (s.objects p).session_id
                (next_sequence_id (s.objects p)).1;
          bytes = next_frame (s.objects p) body;
        }),
      )
  unfolding number_packet
  number_packet_lem p body s small =
      rw (data_frame_lem (s.objects p).session_id (next_sequence_id (s.objects p)).1 body small)
        refl

  module _ (unmap : ℕ → ℕ) where
    -- The counters and the session when a datagram is sent.
    abbrev pub found : Incoming → Sessions → Sessions × ℕ
    found d s = get_or_create_session unmap d.addr d.now (record s {
      stats = Stats.add_packets_received 1 (Stats.add_bytes_received (length d.buf) s.stats);
    })

    pub handle_udp-datagram :
        (d : Incoming) (s : Sessions) (limit : ℕ)
        → IsSound cipher
        → limit < 2 ^ 32
        → IsReadable cipher limit d
        → let (t, p) = found d s in
          (body : List ℕ) × (decrypt cipher body ≡ ok d.buf)
          × (length body ≤ limit)
          × (handle_udp cipher stripe lanes false unmap (datagram d) s ≡ (
            update_object (λ o. (next_sequence_id o).0) p t,
            some (record {
              lane =
                  select_upstream_lane cipher stripe lanes
                    (t.objects p).session_id
                    (next_sequence_id (t.objects p)).1;
              bytes = next_frame (t.objects p) body;
            }),
          ))
    unfolding handle_udp send_to_upstream
    handle_udp-datagram d s limit sound width r =
        let (t, p) = found d s in
        let (body, sealed, opened, long) =
          decrypt-encrypt cipher r.drawn d.buf sound r.size r.bytes in
        let done : encrypt cipher d.nonce d.buf ≡ ok body =
          ap (λ n. encrypt cipher n d.buf) r.nonce ∙ sealed in
        (
          body,
          opened,
          omega (arith, long, r.fits),
          rw (done, send_to_upstream) (number_packet_lem p body t (omega (arith, long, r.fits))),
        )
