-- ===== src/Client/Send/Carried.antt =====
-- internal/client/client.go, handleUDP: what the lane of an application's session gets.
use t2d.Base.{
  ℕ, zero, suc, ◌+◌, ◌%◌, ◌^◌, ◌≤◌, ◌<◌, ◌≡◌, ◌≢◌, refl, sym, ap, ◌∙◌, inl, inr, List, [], ◌∷◌,
  ◌++◌, Bool, true, false, some, arith, length, ◌==◌, ==_self, Bool-cases, if◌then◌else◌, All,
  IsU32, subst,
}
use mathlib.Core.Option.{some-injective}
use t2d.Base.Int.{pos}
use t2d.Base.Maps.{load}
use t2d.Protocol.Packet.{new_data_packet}
use t2d.Protocol.Stream.{Frame}
use t2d.Protocol.Stream.Step.{IsFrame, frame_bytes}
use t2d.Protocol.Stream.DataFrame.{data_frame, data_frame-IsFrame, within}
use t2d.Protocol.Stream.Carries.{Carries, nothing, other, own}
use t2d.Client.Receive.Framing.{frames_bytes}
use t2d.Session.{UdpSession, next_sequence_id}
use t2d.Client.Sessions.{Sessions, update_object, lane_for_session}
use t2d.Client.Sessions.Talks.{
  Talks, Talks-stats, Talks-apart, draw-Talks, draw-Talks_other, get_or_create-counter,
  get_or_create-load, get_or_create-Talks,
}
use t2d.Client.Send.{
  Incoming, UdpRead, closed, failed, datagram, Outgoing, select_upstream_lane, handle_udp,
  with_outgoing, handle_udp_all,
}
use t2d.Client.Send.Frames.{IsReadable, AreReadable, next_frame, found, handle_udp-datagram}
use t2d.Crypto.{Cipher, decrypt}
use t2d.Crypto.Inverse.{IsSound}

-- What a lane gets, as one stream.
abbrev pub lane_bytes : ℕ → List Outgoing → List ℕ
lane_bytes lane [] = []
lane_bytes lane (o ∷ os) =
    if o.lane == lane then o.bytes ++ lane_bytes lane os else lane_bytes lane os

-- The datagrams of an application.
abbrev pub datagrams : (ℕ → ℕ) → ℕ → List UdpRead → List (List ℕ)
datagrams unmap addr [] = []
datagrams unmap addr (closed ∷ rs) = datagrams unmap addr rs
datagrams unmap addr (failed ∷ rs) = datagrams unmap addr rs
datagrams unmap addr (datagram d ∷ rs) =
    if unmap d.addr == addr then d.buf ∷ datagrams unmap addr rs else datagrams unmap addr rs

next_sequence_id-IsU32 : (o : UdpSession) → (next_sequence_id o).1 < 2 ^ 32
unfolding next_sequence_id
next_sequence_id-IsU32 o = omega arith

module _ (cipher : Cipher) (limit sid : ℕ) where
  -- The lane's stream is frames within the limit, which carry the datagrams.
  pub record Carried (lane seq : ℕ) (ds : List (List ℕ)) (os : List Outgoing) : Type 0 where
    pub frames : List Frame
    pub wire : frames_bytes frames ≡ lane_bytes lane os
    pub good : All (IsFrame (pos (suc limit))) frames
    pub carries : Carries (decrypt cipher) sid seq frames ds

  Carried-other :
      {lane seq : ℕ} {ds : List (List ℕ)} {os : List Outgoing} (o : Outgoing) (f : Frame)
      → o.bytes ≡ frame_bytes f
      → IsFrame (pos (suc limit)) f
      → f.header.session_id ≢ sid
      → Carried lane seq ds os
      → Carried lane seq ds (o ∷ os)
  Carried-other {lane} {seq} {ds} {os} o f same good apart c = elim (Bool-cases (o.lane == lane)) [
    | inl hit ↦ record {
      frames = f ∷ c.frames;
      wire = rw (hit, same) (ap (λ x. frame_bytes f ++ x) c.wire);
      good = (good, c.good);
      carries = other apart c.carries;
    }
    | inr miss ↦ record {
      frames = c.frames;
      wire = rw miss c.wire;
      good = c.good;
      carries = c.carries;
    }
  ]

  Carried-own :
      {lane seq : ℕ} {ds : List (List ℕ)} {os : List Outgoing} (o : Outgoing) (f : Frame)
      {d : List ℕ}
      → o.bytes ≡ frame_bytes f
      → (o.lane == lane) ≡ true
      → IsFrame (pos (suc limit)) f
      → f.header.session_id ≡ sid
      → f.header.sequence_id ≡ seq
      → decrypt cipher f.payload ≡ t2d.Base.ok d
      → Carried lane (suc seq) ds os
      → Carried lane seq (d ∷ ds) (o ∷ os)
  Carried-own {lane} {seq} {ds} {os} o f same hit good this number opened c = record {
    frames = f ∷ c.frames;
    wire = rw (hit, same) (ap (λ x. frame_bytes f ++ x) c.wire);
    good = (good, c.good);
    carries = own this number opened c.carries;
  }

  module _ (sound : IsSound cipher) (width : suc limit < 2 ^ 32) (lanes : ℕ) (unmap : ℕ → ℕ)
      (addr : ℕ) where
    abbrev pub sent : List UdpRead → Sessions → List Outgoing
    sent rs s = (handle_udp_all cipher false lanes false unmap rs s).1

    -- The frame of a datagram, whichever session it is of.
    record IsSent (d : Incoming) (s t : Sessions) (q : ℕ) (o : Outgoing) (body : List ℕ)
        : Type 0 where
      opened : decrypt cipher body ≡ t2d.Base.ok d.buf
      step :
          handle_udp cipher false lanes false unmap (datagram d) s
          ≡ (update_object (λ x. (next_sequence_id x).0) q t, some o)
      lane : o.lane ≡ lane_for_session lanes (t.objects q).session_id
      bytes : o.bytes ≡ next_frame (t.objects q) body
      good :
          (t.objects q).session_id < 2 ^ 32
          → IsFrame
              (pos (suc limit))
              (data_frame (t.objects q).session_id (next_sequence_id (t.objects q)).1 body)

    datagram-IsSent :
        (d : Incoming) (s : Sessions)
        → IsReadable cipher (suc limit) d
        → let (t, q) = found cipher false lanes unmap d s in
          (o : Outgoing) × (body : List ℕ) × IsSent d s t q o body
    unfolding select_upstream_lane
    datagram-IsSent d s r =
        let (t, q) = found cipher false lanes unmap d s in
        let (body, opened, long, step) =
          handle_udp-datagram cipher false lanes unmap d s (suc limit) sound width r in
        (
          _,
          body,
          record {
            opened = opened;
            step = step;
            lane = refl;
            bytes = refl;
            good = λ small.
                data_frame-IsFrame (pos (suc limit)) (t.objects q).session_id
                  (next_sequence_id (t.objects q)).1 body small
                  (next_sequence_id-IsU32 (t.objects q)) (omega (arith, long, width))
                  (within limit (length body) long);
          },
        )

    abbrev pub draw : Sessions × ℕ → Sessions
    draw (t, q) = update_object (λ x. (next_sequence_id x).0) q t

    -- One datagram of the application, and one of another.
    pub own-Carried :
        (d : Incoming) (rs : List UdpRead) (s : Sessions) (k : ℕ) {ds : List (List ℕ)}
        → IsReadable cipher (suc limit) d
        → k + 1 < 2 ^ 32
        → sid < 2 ^ 32
        → let (t, q) = found cipher false lanes unmap d s in
          Talks addr q sid k t
          → Carried (lane_for_session lanes sid) (k + 1 + 1) ds (sent rs (draw (t, q)))
          → Carried (lane_for_session lanes sid) (k + 1) (d.buf ∷ ds) (sent (datagram d ∷ rs) s)
    unfolding handle_udp_all with_outgoing next_sequence_id new_data_packet
    own-Carried d rs s k {ds} r room small v rest =
        let (t, q) = found cipher false lanes unmap d s in
        let (o, body, z) = datagram-IsSent d s r in
        let next : k + 1 + 1 ≡ suc (k + 1) = omega arith in
        let seq : (next_sequence_id (t.objects q)).1 ≡ k + 1 = omega (arith, v.drawn) in
        let lane : o.lane ≡ lane_for_session lanes sid =
          z.lane ∙ ap (lane_for_session lanes) v.number in
        rw z.step (
          Carried-own o
            (data_frame (t.objects q).session_id (next_sequence_id (t.objects q)).1 body) z.bytes
            (rw (lane, ==_self (lane_for_session lanes sid)) refl)
            (z.good (omega (arith, v.number))) v.number seq z.opened
            (subst (λ n. Carried (lane_for_session lanes sid) n ds (sent rs (draw (t, q)))) next
              rest))

    other-Carried :
        (d : Incoming) (rs : List UdpRead) (s : Sessions) (k : ℕ) {ds : List (List ℕ)}
        → IsReadable cipher (suc limit) d
        → let (t, q) = found cipher false lanes unmap d s in
          (t.objects q).session_id < 2 ^ 32
          → (t.objects q).session_id ≢ sid
          → Carried (lane_for_session lanes sid) (k + 1) ds (sent rs (draw (t, q)))
          → Carried (lane_for_session lanes sid) (k + 1) ds (sent (datagram d ∷ rs) s)
    unfolding handle_udp_all with_outgoing new_data_packet
    other-Carried d rs s k r small apart rest =
        let (t, q) = found cipher false lanes unmap d s in
        let (o, body, z) = datagram-IsSent d s r in
        rw z.step (
          Carried-other o
            (data_frame (t.objects q).session_id (next_sequence_id (t.objects q)).1 body) z.bytes
            (z.good small) apart rest)

    -- Through any datagrams of any applications, and reads that fail, the lane of a session gets frames
    -- that carry what its application sends.
    pub handle_udp_all-Carried :
        (rs : List UdpRead) (s : Sessions) (k p : ℕ)
        → All (AreReadable cipher (suc limit)) rs
        → s.session_counter + length rs < 2 ^ 32
        → k + length (datagrams unmap addr rs) < 2 ^ 32
        → sid < 2 ^ 32
        → Talks addr p sid k s
        → Carried (lane_for_session lanes sid) (k + 1) (datagrams unmap addr rs) (sent rs s)
    unfolding handle_udp_all handle_udp with_outgoing update_object
    handle_udp_all-Carried [] s k p ok ids seqs small v = record {
      frames = [];
      wire = refl;
      good = tt;
      carries = nothing;
    }
    handle_udp_all-Carried (closed ∷ rs) s k p ok ids seqs small v =
        handle_udp_all-Carried rs s k p ok.1 (omega (arith, ids)) seqs small v
    handle_udp_all-Carried (failed ∷ rs) s k p ok ids seqs small v =
        handle_udp_all-Carried rs _ k p ok.1 (omega (arith, ids)) seqs small (Talks-stats _ v)
    handle_udp_all-Carried (datagram d ∷ rs) s k p ok ids seqs small v =
        let (t, q) = found cipher false lanes unmap d s in
        let w : Talks addr p sid k t =
          get_or_create-Talks unmap d.addr d.now _ (omega (arith, ids)) (Talks-stats _ v) in
        let there : load (unmap d.addr) t.sessions ≡ some q =
          get_or_create-load unmap d.addr d.now _ in
        let counter : t.session_counter ≤ s.session_counter + 1 =
          get_or_create-counter unmap d.addr d.now _ in
        elim (Bool-cases (unmap d.addr == addr)) [
          | inl hit ↦
              let mine : unmap d.addr ≡ addr = ground arith in
              let here : p ≡ q =
                some-injective p q (sym w.there ∙ ap (λ a. load a t.sessions) (sym mine) ∙ there) in
              let w' : Talks addr q sid k t = subst (λ i. Talks addr i sid k t) here w in
              let room : k + suc (length (datagrams unmap addr rs)) < 2 ^ 32 = (rw hit at seqs) in
              rw hit (
                own-Carried d rs s k ok.0 (omega (arith, room)) small w' (
                  handle_udp_all-Carried rs (draw (t, q)) (k + 1) q ok.1
                    (omega (arith, ids, counter)) (omega (arith, room)) small
                    (draw-Talks t (omega (arith, room)) w')))
          | inr miss ↦
              let (apart, others) = Talks-apart (unmap d.addr) q (ground (arith, miss)) there w in
              let known = w.inv.bwd _ q (w.inv.fwd (unmap d.addr) q there).1 in
              let room : k + length (datagrams unmap addr rs) < 2 ^ 32 = (rw miss at seqs) in
              rw miss (
                other-Carried d rs s k ok.0 (omega (arith, known.2, counter, ids)) others (
                  handle_udp_all-Carried rs (draw (t, q)) k p ok.1 (omega (arith, ids, counter))
                    room small (draw-Talks_other q t apart w)))
        ]
