-- ===== src/Client/Downstream/Stream.antt =====
-- internal/client/client.go, handleDownstream: from the bytes of a lane to the datagrams.
use t2d.Base.{
  ℕ, ◌≤◌, ◌≡◌, refl, ap, ◌∙◌, inl, inr, List, [], ◌∷◌, ◌++◌, Bool, ◌==◌, Bool-cases, Option-cases,
  Result, Result-cases, All, length,
}
use t2d.Base.Int.{ℤ}
use t2d.Base.Maps.{load}
use t2d.Protocol.Packet.{packet_type_heartbeat}
use t2d.Protocol.Stream.{Frame, new_stream_buffer}
use t2d.Protocol.Stream.Step.{IsFrame}
use t2d.Protocol.Stream.Carries.{Carries, IsData}
use t2d.Client.Receive.{receive_all}
use t2d.Client.Receive.Framing.{frames_bytes, stream_bytes, CountsApart, add_all, handle_stream}
use t2d.Client.Sessions.{Sessions, Datagram, handle_downstream_packet, deliver, update_object}
use t2d.Client.Downstream.{handle_frame, count_bytes, client_sink}
use t2d.Client.Downstream.Deliver.{Reaches, datagrams_to, dispatch_all-carried}
use t2d.Stats

module _ {E : Type 0} (decrypt : List ℕ → Result E (List ℕ)) (writes : Datagram → Bool)
    (clock : List Datagram → ℕ) where
  client_sink-CountsApart : CountsApart (client_sink decrypt writes clock)
  unfolding client_sink handle_frame count_bytes handle_downstream_packet deliver
      Stats.add_bytes_received Stats.add_error Stats.add_packets_sent Stats.add_bytes_sent
      update_object
  client_sink-CountsApart (s, ds) n f = elim (Bool-cases (f.header.type == packet_type_heartbeat)) [
    | inl beat ↦ rw beat refl
    | inr other ↦ elim (Result-cases (decrypt f.payload)) [
      | inl (e, bad) ↦ rw (other, bad) refl
      | inr (bytes, good) ↦ elim (Option-cases (load f.header.session_id s.sessions_by_id)) [
        | inl absent ↦ rw (other, good, absent) refl
        | inr (p, there) ↦
            let d : Datagram = record { bytes = bytes; to = (s.objects p).remote_addr_port } in
            elim (Bool-cases (writes d)) [
              | inl taken ↦ rw (other, good, there, taken) refl
              | inr failed ↦ rw (other, good, there, failed) refl
            ]
      ]
    ]
  ]

  add_all-Reaches :
      {sid addr : ℕ} (chunks : List (List ℕ)) (s : Sessions) (ds : List Datagram)
      → Reaches sid addr s
      → let (s', ds') = add_all (client_sink decrypt writes clock) (s, ds) chunks in
        Reaches sid addr s' × (ds' ≡ ds)
  unfolding client_sink count_bytes
  add_all-Reaches [] s ds v = (v, refl)
  add_all-Reaches (c ∷ cs) s ds v =
      add_all-Reaches cs (record s { stats = Stats.add_bytes_received (length c) s.stats }) ds
        (record {
          inv = record { fwd = v.inv.fwd; bwd = v.inv.bwd };
          at = v.at;
          there = v.there;
          address = v.address;
        })

  module _ (grow : ℕ → ℕ → ℕ) (enough : (old needed : ℕ) → needed ≤ grow old needed) where
    pub receive_all-carried :
        {sid seq addr : ℕ} (capacity limit : ℤ) (chunks : List (List ℕ)) (fs : List Frame)
        {rs : List (List ℕ)} (s : Sessions)
        → Reaches sid addr s
        → All (IsFrame limit) fs
        → All IsData fs
        → Carries decrypt sid seq fs rs
        → stream_bytes chunks ≡ frames_bytes fs
        → datagrams_to addr
            (receive_all
              (client_sink decrypt writes clock)
              grow
              (new_stream_buffer capacity limit, (s, []))
              chunks).1.1
          ≡ rs
    receive_all-carried {addr = addr} capacity limit chunks fs {rs} s v good all c wire =
        let sink = client_sink decrypt writes clock in
        let (handled, _) =
          handle_stream sink client_sink-CountsApart grow enough capacity limit chunks fs (s, [])
            good wire in
        let (s', ds') = add_all sink (s, []) chunks in
        let (known, same) = add_all-Reaches chunks s [] v in
        ap (λ r. datagrams_to addr r.1) handled
        ∙ dispatch_all-carried decrypt writes clock fs s' ds' c all known
        ∙ ap (λ x. datagrams_to addr x ++ rs) same
