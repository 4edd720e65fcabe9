-- ===== src/EndToEnd/Downstream.antt =====
-- internal/server/server.go, sendToDownstream, against internal/client/client.go, handleDownstream: from
-- the backends to an application.
mod Tests
use t2d.Base.{
  ℕ, suc, ◌+◌, ◌^◌, ◌≤◌, ◌<◌, ◌≡◌, refl, ap, ◌∙◌, List, [], ◌∷◌, ◌++◌, map, Bool, length, All,
}
use t2d.Base.Int.{ℤ, pos}
use t2d.Protocol.Stream.{Frame, new_stream_buffer}
use t2d.Protocol.Stream.Step.{frame_bytes}
use t2d.Client.Receive.{receive_all}
use t2d.Client.Receive.Framing.{frames_bytes, stream_bytes}
use t2d.Client.Sessions.{Sessions, Datagram}
use t2d.Client.Downstream.{client_sink}
use t2d.Client.Downstream.Deliver.{Reaches, datagrams_to}
use t2d.Client.Downstream.Stream.{receive_all-carried}
use t2d.Crypto.{Cipher, decrypt}
use t2d.Crypto.Inverse.{IsSound}
use t2d.Server.Lanes.{Server, lane_for_session, channel_size}
use t2d.Server.Lanes.Replies.{Reply, send_replies}
use t2d.Server.Lanes.Replies.Carried.{channel, IsSendable, replies_of}
use t2d.Server.Lanes.Replies.Queued.{send_replies-Queued}

stream_bytes-frames : (fs : List Frame) → stream_bytes (map frame_bytes fs) ≡ frames_bytes fs
stream_bytes-frames [] = refl
stream_bytes-frames (f ∷ fs) = ap (λ x. frame_bytes f ++ x) (stream_bytes-frames fs)

module _ (cipher : Cipher) (sound : IsSound cipher) (limit : ℕ) (width : suc limit < 2 ^ 32)
    (writes : Datagram → Bool) (clock : List Datagram → ℕ) (grow : ℕ → ℕ → ℕ)
    (enough : (old needed : ℕ) → needed ≤ grow old needed) (capacity : ℤ) where
  -- The server's backends reply for any sessions in any order; each reply is of bytes, the random source
  -- gives it its nonce, its ciphertext is within the client's limit, its lane exists, the lanes'
  -- channels have room for all of them, and the session's counter does not wrap round. The client has
  -- the same cipher, which keeps its promises, its sessions fit together, and one of the session's
  -- number has an address; what it reads on the session's lane, in whatever chunks, is what the lane's
  -- channel, empty before, has got. Then what the read loop writes to this address is exactly the replies
  -- of the session, each once and in order, whatever the clock shows and whichever writes fail.
  pub receive_all-send_replies :
      (rs : List Reply) (sid lane addr : ℕ) (server : Server) (counters : ℕ → ℕ) (client : Sessions)
      (chunks : List (List ℕ))
      → All (IsSendable cipher (suc limit) server) rs
      → ((i : ℕ) → length (channel server.down_writers i) + length rs ≤ channel_size)
      → counters sid + length rs < 2 ^ 32
      → lane_for_session sid server ≡ lane
      → channel server.down_writers lane ≡ []
      → Reaches sid addr client
      → stream_bytes chunks
        ≡ stream_bytes (channel (send_replies cipher rs (server, counters)).0.down_writers lane)
      → datagrams_to addr
          (receive_all
            (client_sink (decrypt cipher) writes clock)
            grow
            (new_stream_buffer capacity (pos (suc limit)), (client, []))
            chunks).1.1
        ≡ replies_of sid rs
  receive_all-send_replies rs sid lane addr server counters client chunks all room seqs way idle
        known wire =
      let q =
        send_replies-Queued cipher sound limit width rs lane sid server counters all room seqs
          way in
      receive_all-carried (decrypt cipher) writes clock grow enough capacity (pos (suc limit))
        chunks q.frames client known q.good q.all_data q.carries
        (wire
          ∙ ap stream_bytes (q.wire ∙ ap (λ c. c ++ map frame_bytes q.frames) idle)
          ∙ stream_bytes-frames q.frames)
