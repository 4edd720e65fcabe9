-- ===== src/Server/Lanes/Replies/Carried.antt =====
-- internal/server/server.go, sendToDownstream: what the channel of a lane takes.
use t2d.Base.{
  ℕ, zero, suc, ◌+◌, ◌%◌, ◌^◌, ◌≤◌, ◌<◌, ◌≡◌, ◌≢◌, refl, sym, ap, ◌∙◌, List, [], ◌∷◌, ◌++◌, true,
  arith, length, lt→ltb, ◌==◌, if◌then◌else◌, ok, IsBytes,
}
use t2d.Base.Int.{pos}
use t2d.Base.Maps.{load}
use t2d.Protocol.Stream.Step.{IsFrame, frame_bytes}
use t2d.Protocol.Stream.DataFrame.{data_frame, data_frame-IsFrame, within}
use t2d.Crypto.{Cipher, encrypt, decrypt, overhead}
use t2d.Crypto.Inverse.{IsSound, nonce_size, decrypt-encrypt}
use t2d.Server.Lanes.{
  Server, DownstreamWriter, lane_count, lane_for_session, channel_size, enqueue, enqueue_at,
  send_to_downstream, build_frame,
}
use t2d.Server.Lanes.Frames.{build_frame_lem}
use t2d.Server.Lanes.Replies.{Reply, encrypted, put_counter, send_reply}

-- A lane's channel.
abbrev pub channel : List DownstreamWriter → ℕ → List (List ℕ)
channel [] i = []
channel (w ∷ ws) zero = w.ch
channel (w ∷ ws) (suc i) = channel ws i

length-enqueue_at :
    (i : ℕ) (x : List ℕ) (ws : List DownstreamWriter) → length (enqueue_at i x ws).0 ≡ length ws
unfolding enqueue_at
length-enqueue_at i x [] = refl
length-enqueue_at zero x (w ∷ ws) = refl
length-enqueue_at (suc i) x (w ∷ ws) = ap suc (length-enqueue_at i x ws)

enqueue_at-room :
    (i : ℕ) (x : List ℕ) (ws : List DownstreamWriter)
    → i < length ws
    → length (channel ws i) < channel_size
    → ((enqueue_at i x ws).1 ≡ true) × (channel (enqueue_at i x ws).0 i ≡ channel ws i ++ (x ∷ []))
unfolding enqueue_at enqueue
enqueue_at-room i x [] h room = absurd (omega arith)
enqueue_at-room zero x (w ∷ ws) h room = rw (lt→ltb (length w.ch) channel_size room) (refl, refl)
enqueue_at-room (suc i) x (w ∷ ws) h room = enqueue_at-room i x ws (omega arith) room

enqueue_at-other :
    (i j : ℕ) (x : List ℕ) (ws : List DownstreamWriter)
    → i ≢ j
    → channel (enqueue_at i x ws).0 j ≡ channel ws j
unfolding enqueue_at
enqueue_at-other i j x [] apart = refl
enqueue_at-other zero zero x (w ∷ ws) apart = absurd (apart refl)
enqueue_at-other zero (suc j) x (w ∷ ws) apart = refl
enqueue_at-other (suc i) zero x (w ∷ ws) apart = refl
enqueue_at-other (suc i) (suc j) x (w ∷ ws) apart =
    enqueue_at-other i j x ws (λ e. apart (ap suc e))

-- A reply whose encryption the random source serves, with a ciphertext within the limit, for a lane
-- that exists.
pub record IsSendable (cipher : Cipher) (limit : ℕ) (s : Server) (r : Reply) : Type 0 where
  pub drawn : List ℕ
  pub nonce : r.nonce ≡ ok drawn
  pub size : length drawn ≡ nonce_size cipher
  pub bytes : IsBytes r.buf
  pub fits : length r.buf + overhead cipher ≤ limit
  pub number : r.sid < 2 ^ 32
  pub routed : lane_for_session r.sid s < lane_count s

-- The lanes and the sessions' ways to them are the same.
pub record SameLanes (s t : Server) : Type 0 where
  pub count : lane_count t ≡ lane_count s
  pub lanes : t.session_lane_map ≡ s.session_lane_map

pub SameLanes-route :
    {s t : Server} (sid : ℕ) → SameLanes s t → lane_for_session sid t ≡ lane_for_session sid s
unfolding lane_for_session
SameLanes-route {s} {t} sid e =
    let same : load sid t.session_lane_map ≡ load sid s.session_lane_map = ap (load sid) e.lanes in
    ground (arith, same, e.count)

module _ (cipher : Cipher) (sound : IsSound cipher) (limit : ℕ) (width : suc limit < 2 ^ 32) where
  -- A reply's frame stands at the end of its lane's channel, and the other channels are as they were.
  pub record Sent (r : Reply) (lane k : ℕ) (s t : Server) : Type 0 where
    pub body : List ℕ
    pub opened : decrypt cipher body ≡ ok r.buf
    pub good : IsFrame (pos (suc limit)) (data_frame r.sid ((k + 1) % 2 ^ 32) body)
    pub here :
        lane_for_session r.sid s ≡ lane
        → channel t.down_writers lane
          ≡ channel s.down_writers lane
            ++ (frame_bytes (data_frame r.sid ((k + 1) % 2 ^ 32) body) ∷ [])
    pub elsewhere :
        lane_for_session r.sid s ≢ lane → channel t.down_writers lane ≡ channel s.down_writers lane
    pub same : SameLanes s t

  pub send_reply-Sent :
      (r : Reply) (lane : ℕ) (s : Server) (counters : ℕ → ℕ)
      → IsSendable cipher (suc limit) s r
      → length (channel s.down_writers (lane_for_session r.sid s)) < channel_size
      → Sent r lane (counters r.sid) s (send_reply cipher r (s, counters)).0
        × ((send_reply cipher r (s, counters)).1
            ≡ put_counter r.sid ((counters r.sid + 1) % 2 ^ 32) counters)
  unfolding send_reply send_to_downstream encrypted
  send_reply-Sent r lane s counters q room =
      let (body, sealed, opened, long) =
        decrypt-encrypt cipher q.drawn r.buf sound q.size q.bytes in
      let done : encrypt cipher r.nonce r.buf ≡ ok body =
        ap (λ n. encrypt cipher n r.buf) q.nonce ∙ sealed in
      let k = counters r.sid in
      let own_lane = lane_for_session r.sid s in
      let f = data_frame r.sid ((k + 1) % 2 ^ 32) body in
      let bytes : build_frame r.sid ((k + 1) % 2 ^ 32) body ≡ frame_bytes f =
        build_frame_lem r.sid ((k + 1) % 2 ^ 32) body (omega (arith, long, q.fits)) in
      let at = enqueue_at-room own_lane (frame_bytes f) s.down_writers q.routed room in
      rw (lt→ltb own_lane (lane_count s) q.routed, done, encrypted, bytes, at.0)
        (
          record {
            body = body;
            opened = opened;
            good =
                data_frame-IsFrame (pos (suc limit)) r.sid ((k + 1) % 2 ^ 32) body q.number
                  (omega arith) (omega (arith, long, q.fits))
                  (within limit (length body) (omega (arith, long, q.fits)));
            here = λ e.
                ap (channel _) (sym e)
                ∙ at.1
                ∙ ap (λ i. channel s.down_writers i ++ (frame_bytes f ∷ [])) e;
            elsewhere =
                λ apart. enqueue_at-other own_lane lane (frame_bytes f) s.down_writers apart;
            same = record {
              count = length-enqueue_at own_lane (frame_bytes f) s.down_writers;
              lanes = refl;
            };
          },
          refl,
        )

-- The replies of a session.
abbrev pub replies_of : ℕ → List Reply → List (List ℕ)
replies_of sid [] = []
replies_of sid (r ∷ rs) = if r.sid == sid then r.buf ∷ replies_of sid rs else replies_of sid rs
