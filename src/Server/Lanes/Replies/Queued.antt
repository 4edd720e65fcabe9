-- ===== src/Server/Lanes/Replies/Queued.antt =====
-- internal/server/server.go, sendToDownstream: the replies of many sessions in the channels.
use t2d.Base.{
  ℕ, suc, ◌+◌, ◌%◌, ◌^◌, ◌≤◌, ◌<◌, ◌≡◌, ◌≢◌, refl, sym, ap, subst, ◌∙◌, inl, inr, List, [], ◌∷◌,
  ◌++◌, map, arith, length, ◌==◌, Bool-cases, All, append-nil, append_assoc, length-append,
}
use t2d.Base.Int.{pos}
use t2d.Protocol.Packet.{new_data_packet}
use t2d.Protocol.Stream.{Frame}
use t2d.Protocol.Stream.Step.{IsFrame, frame_bytes}
use t2d.Protocol.Stream.DataFrame.{data_frame}
use t2d.Protocol.Stream.Carries.{Carries, IsData, nothing, other, own}
use t2d.Crypto.{Cipher, decrypt}
use t2d.Crypto.Inverse.{IsSound}
use t2d.Server.Lanes.{Server, lane_for_session, channel_size}
use t2d.Server.Lanes.Replies.{Reply, put_counter, send_reply, send_replies}
use t2d.Server.Lanes.Replies.Carried.{
  channel, IsSendable, SameLanes, SameLanes-route, Sent, send_reply-Sent, replies_of,
}

module _ (cipher : Cipher) (sound : IsSound cipher) (limit : ℕ) (width : suc limit < 2 ^ 32) where
  -- Behind what was in the lane's channel stand frames that carry the session's replies.
  pub record Queued (lane sid seq : ℕ) (ds : List (List ℕ)) (s t : Server) : Type 0 where
    pub frames : List Frame
    pub wire : channel t.down_writers lane ≡ channel s.down_writers lane ++ map frame_bytes frames
    pub good : All (IsFrame (pos (suc limit))) frames
    pub all_data : All IsData frames
    pub carries : Carries (decrypt cipher) sid seq frames ds

  IsSendable-Same :
      {s t : Server}
      → SameLanes s t
      → (r : Reply) → IsSendable cipher (suc limit) s r
      → IsSendable cipher (suc limit) t r
  IsSendable-Same e r q = record {
    drawn = q.drawn;
    nonce = q.nonce;
    size = q.size;
    bytes = q.bytes;
    fits = q.fits;
    number = q.number;
    routed = omega (arith, SameLanes-route r.sid e, e.count, q.routed);
  }

  AreSendable-Same :
      {s t : Server} (rs : List Reply)
      → SameLanes s t
      → All (IsSendable cipher (suc limit) s) rs
      → All (IsSendable cipher (suc limit) t) rs
  AreSendable-Same [] e q = tt
  AreSendable-Same (r ∷ rs) e q = (IsSendable-Same e r q.0, AreSendable-Same rs e q.1)

  -- A channel grows by no more than the frame of a reply.
  Sent-length :
      {r : Reply} {lane k : ℕ} {s t : Server}
      → Sent cipher sound limit width r lane k s t
      → length (channel t.down_writers lane) ≤ length (channel s.down_writers lane) + 1
  Sent-length {r} {lane} {k} {s} {t} z = elim (Bool-cases (lane_for_session r.sid s == lane)) [
    | inl hit ↦ omega (
      arith,
      ap length (z.here (ground arith)),
      length-append (channel s.down_writers lane)
          (frame_bytes (data_frame r.sid ((k + 1) % 2 ^ 32) z.body) ∷ []),
    )
    | inr miss ↦ omega (arith, ap length (z.elsewhere (ground arith)))
  ]

  -- One frame more in front.
  wire_here :
      (x : Frame) (xs : List Frame) (cs : List (List ℕ)) {ct cu : List (List ℕ)}
      → ct ≡ cs ++ (frame_bytes x ∷ [])
      → cu ≡ ct ++ map frame_bytes xs
      → cu ≡ cs ++ map frame_bytes (x ∷ xs)
  wire_here x xs cs first rest =
      rest
      ∙ ap (λ c. c ++ map frame_bytes xs) first
      ∙ append_assoc cs (frame_bytes x ∷ []) (map frame_bytes xs)

  Queued-own :
      {r : Reply} {lane sid k : ℕ} {ds : List (List ℕ)} {s t u : Server}
      → Sent cipher sound limit width r lane k s t
      → r.sid ≡ sid
      → k + 1 < 2 ^ 32
      → lane_for_session r.sid s ≡ lane
      → Queued lane sid (suc (k + 1)) ds t u
      → Queued lane sid (k + 1) (r.buf ∷ ds) s u
  unfolding new_data_packet
  Queued-own {r} {lane} {sid} {k} {s = s} z this small way q =
      let f = data_frame r.sid ((k + 1) % 2 ^ 32) z.body in
      record {
        frames = f ∷ q.frames;
        wire = wire_here f q.frames (channel s.down_writers lane) (z.here way) q.wire;
        good = (z.good, q.good);
        all_data = (refl, q.all_data);
        carries = own this (omega arith) z.opened q.carries;
      }

  Queued-other :
      {r : Reply} {lane sid k seq : ℕ} {ds : List (List ℕ)} {s t u : Server}
      → Sent cipher sound limit width r lane k s t
      → r.sid ≢ sid
      → Queued lane sid seq ds t u
      → Queued lane sid seq ds s u
  unfolding new_data_packet
  Queued-other {r} {lane} {sid} {k} {s = s} z apart q =
      let f = data_frame r.sid ((k + 1) % 2 ^ 32) z.body in
      elim (Bool-cases (lane_for_session r.sid s == lane)) [
        | inl hit ↦ record {
          frames = f ∷ q.frames;
          wire = wire_here f q.frames (channel s.down_writers lane) (z.here (ground arith)) q.wire;
          good = (z.good, q.good);
          all_data = (refl, q.all_data);
          carries = other apart q.carries;
        }
        | inr miss ↦ record {
          frames = q.frames;
          wire = q.wire ∙ ap (λ c. c ++ map frame_bytes q.frames) (z.elsewhere (ground arith));
          good = q.good;
          all_data = q.all_data;
          carries = q.carries;
        }
      ]

  pub send_replies-Queued :
      (rs : List Reply) (lane sid : ℕ) (s : Server) (counters : ℕ → ℕ)
      → All (IsSendable cipher (suc limit) s) rs
      → ((i : ℕ) → length (channel s.down_writers i) + length rs ≤ channel_size)
      → counters sid + length rs < 2 ^ 32
      → lane_for_session sid s ≡ lane
      → Queued lane sid
          (counters sid + 1)
          (replies_of sid rs)
          s
          (send_replies cipher rs (s, counters)).0
  unfolding send_replies new_data_packet
  send_replies-Queued [] lane sid s counters all room seqs way = record {
    frames = [];
    wire = sym (append-nil (channel s.down_writers lane));
    good = tt;
    all_data = tt;
    carries = nothing;
  }
  send_replies-Queued (r ∷ rs) lane sid s counters all room seqs way =
      let there = λ (i : ℕ).
        (send_reply-Sent cipher sound limit width r i s counters all.0
          (omega (arith, room (lane_for_session r.sid s)))).0 in
      let z = there lane in
      let counted =
        (send_reply-Sent cipher sound limit width r lane s counters all.0
          (omega (arith, room (lane_for_session r.sid s)))).1 in
      let (t, next) = send_reply cipher r (s, counters) in
      let now : next sid ≡ put_counter r.sid ((counters r.sid + 1) % 2 ^ 32) counters sid =
        ap (λ c. c sid) counted in
      let rest =
        send_replies-Queued rs lane sid t next (AreSendable-Same rs z.same all.1)
          (λ i. omega (arith, room i, Sent-length (there i))) in
      elim (Bool-cases (r.sid == sid)) [
        | inl hit ↦
            let this : r.sid ≡ sid = ground arith in
            let k : counters r.sid ≡ counters sid = ap counters this in
            let up : next sid ≡ counters r.sid + 1 = ground (arith, now, k, seqs) in
            let q = rest (omega (arith, up, k, seqs)) (SameLanes-route sid z.same ∙ way) in
            rw (hit, sym k)
              (Queued-own z this (omega (arith, k, seqs))
                (ap (λ i. lane_for_session i s) this ∙ way)
                (subst
                  (λ n.
                    Queued lane sid n (replies_of sid rs) t (send_replies cipher rs (t, next)).0)
                  (omega (arith, up)) q))
        | inr miss ↦
            let up : next sid ≡ counters sid = ground (arith, now) in
            let q = rest (omega (arith, up, seqs)) (SameLanes-route sid z.same ∙ way) in
            rw miss (
              Queued-other z (ground (arith, miss)) (
                subst
                  (λ n.
                    Queued lane sid (n + 1) (replies_of sid rs) t
                      (send_replies cipher rs (t, next)).0)
                  up q))
      ]
