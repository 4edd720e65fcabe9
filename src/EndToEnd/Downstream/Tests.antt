-- ===== src/EndToEnd/Downstream/Tests.antt =====
-- Replies of two sessions; the client reads their bytes in two pieces.
use t2d.Base.{
  ℕ, zero, suc, ◌+◌, ap, append-nil, ◌≤◌, ◌≡◌, refl, List, [], ◌∷◌, Bool, true, arith, ok, none,
  length, IsBytes, take, drop,
}
use t2d.Base.Int.{pos}
use t2d.Base.Maps.{load}
use t2d.Stats.{new}
use t2d.Session.{new_udp_session_addr_port}
use t2d.Protocol.Stream.{new_stream_buffer}
use t2d.Client.Receive.{receive_all}
use t2d.Client.Receive.Framing.{stream_bytes}
use t2d.Client.Sessions.{Sessions, Datagram, create_session, register_session_on_lane, new_sessions}
use t2d.Client.Sessions.Create.{create_session-Inv}
use t2d.Client.Sessions.Steps.{new_sessions-Inv}
use t2d.Client.Downstream.{client_sink}
use t2d.Client.Downstream.Deliver.{Reaches, datagrams_to}
use t2d.Crypto.{xor_cipher, decrypt, overhead}
use t2d.Server.Lanes.{Server, DownstreamWriter, lane_for_session, channel_size}
use t2d.Server.Lanes.Replies.{Reply, send_replies}
use t2d.Server.Lanes.Replies.Carried.{channel, IsSendable}
use t2d.EndToEnd.Downstream.{receive_all-send_replies}

abbrev all_written : Datagram → Bool
all_written d = true

abbrev midnight : List Datagram → ℕ
midnight ds = 0

abbrev needed : ℕ → ℕ → ℕ
needed old n = n

abbrev idle : DownstreamWriter
idle = record { ch = []; conn = none }

abbrev two_lanes : Server
two_lanes = record {
  down_writers = idle ∷ idle ∷ [];
  session_lane_map = [];
  sessions = [];
  contexts = [];
  stats = new 0;
}

abbrev reply : ℕ → List ℕ → Reply
reply sid bytes = record { sid = sid; buf = bytes; nonce = ok [] }

abbrev replies : List Reply
replies = reply 1 (7 ∷ []) ∷ reply 2 (8 ∷ []) ∷ reply 1 (9 ∷ 10 ∷ []) ∷ []

reply-IsSendable :
    (sid : ℕ) (bytes : List ℕ)
    → IsBytes bytes
    → length bytes ≤ 1500
    → sid ≤ 2
    → IsSendable xor_cipher 1500 two_lanes (reply sid bytes)
unfolding overhead lane_for_session load
reply-IsSendable sid bytes small short low = record {
  drawn = [];
  nonce = refl;
  size = refl;
  bytes = small;
  fits = omega arith;
  number = omega (arith, low);
  routed = omega arith;
}

-- The client after the first datagram from address 40.
abbrev one_session : Sessions
one_session = (create_session 40 0 (new_sessions ([] ∷ [] ∷ []) (new 0))).0

one_session-Reaches : Reaches 1 40 one_session
unfolding create_session register_session_on_lane new_sessions load new_udp_session_addr_port
one_session-Reaches = record {
  inv =
      create_session-Inv 40 0 (new_sessions ([] ∷ [] ∷ []) (new 0))
        (new_sessions-Inv ([] ∷ [] ∷ []) (new 0)) refl (omega arith);
  at = 0;
  there = refl;
  address = refl;
}

room : (i : ℕ) → length (channel (idle ∷ idle ∷ []) i) + 3 ≤ channel_size
room zero = omega arith
room (suc zero) = omega arith
room (suc (suc i)) = omega arith

two_pieces : (n : ℕ) (x : List ℕ) → stream_bytes (take n x ∷ drop n x ∷ []) ≡ x
two_pieces zero x = append-nil x
two_pieces (suc n) [] = refl
two_pieces (suc n) (a ∷ x) = ap (◌∷◌ a) (two_pieces n x)

-- What the channel of lane 1 has got, in two pieces.
abbrev pieces : List (List ℕ)
pieces =
    let all =
      stream_bytes
        (channel (send_replies xor_cipher replies (two_lanes, λ sid. 0)).0.down_writers 1) in
    take 25 all ∷ drop 25 all ∷ []

receive_all-send_replies_example :
    datagrams_to 40
      (receive_all
        (client_sink (decrypt xor_cipher) all_written midnight)
        needed
        (new_stream_buffer (pos 64) (pos 1500), (one_session, []))
        pieces).1.1
    ≡ (7 ∷ []) ∷ (9 ∷ 10 ∷ []) ∷ []
unfolding lane_for_session load
receive_all-send_replies_example =
    receive_all-send_replies xor_cipher tt 1499 (omega arith) all_written midnight needed
      (λ old n. omega arith) (pos 64) replies 1 1 40 two_lanes (λ sid. 0) one_session pieces
      (
        reply-IsSendable 1 (7 ∷ []) (omega arith) (omega arith) (omega arith),
        (
          reply-IsSendable 2 (8 ∷ []) (omega arith) (omega arith) (omega arith),
          (reply-IsSendable 1 (9 ∷ 10 ∷ []) (omega arith) (omega arith) (omega arith), tt),
        ),
      )
      room (omega arith) refl refl one_session-Reaches
      (two_pieces 25 (
        stream_bytes
          (channel (send_replies xor_cipher replies (two_lanes, λ sid. 0)).0.down_writers 1)))
