-- ===== src/EndToEnd/Upstream/Tests.antt =====
-- Two applications over two lanes; the first of them sends two datagrams.
use t2d.Base.{ℕ, refl, List, [], ◌∷◌, Bool, true, false, arith, ok, ◌≤◌, length, IsBytes}
use t2d.Base.Int.{pos}
use t2d.Base.Maps.{load}
use t2d.Stats.{new}
use t2d.Client.Sessions.{Sessions, new_sessions, lane_for_session}
use t2d.Client.Sessions.Steps.{new_sessions-Inv}
use t2d.Client.Send.{Incoming, UdpRead, failed, datagram, handle_udp_all}
use t2d.Client.Send.Frames.{IsReadable}
use t2d.Client.Send.Carried.{lane_bytes}
use t2d.Crypto.{xor_cipher, decrypt, overhead}
use t2d.Server.Sessions.{SessionTable, new_table}
use t2d.Server.Sessions.Served.{handle}
use t2d.Server.Sessions.First.{Passes, new_table-Awaits}
use t2d.Server.Traffic.Memory.{
  memory_conn, memory_conn-IsGnetConn, memory_arrive, in_two, stream_bytes-in_two,
}
use t2d.Server.Traffic.Arrivals.{on_traffic_all}
use t2d.EndToEnd.Upstream.{on_traffic-handle_udp}

abbrev all_written : List (List ℕ) → List ℕ → Bool
all_written sent p = true

abbrev reachable : SessionTable → Bool
reachable s = true

abbrev midnight : SessionTable → ℕ
midnight s = 0

abbrev plain : ℕ → ℕ
plain addr = addr

abbrev incoming : ℕ → List ℕ → Incoming
incoming addr bytes = record { buf = bytes; addr = addr; nonce = ok []; now = 0 }

abbrev later : List UdpRead
later = datagram (incoming 9 (5 ∷ [])) ∷ failed ∷ datagram (incoming 7 (3 ∷ 4 ∷ [])) ∷ []

abbrev idle : Sessions
idle = new_sessions ([] ∷ [] ∷ []) (new 0)

incoming-IsReadable :
    (addr : ℕ) (bytes : List ℕ)
    → IsBytes bytes
    → length bytes ≤ 1500
    → IsReadable xor_cipher 1500 (incoming addr bytes)
unfolding overhead
incoming-IsReadable addr bytes small short = record {
  drawn = [];
  nonce = refl;
  size = refl;
  bytes = small;
  fits = omega arith;
}

on_traffic-handle_udp_example :
    Passes 1
      ((1 ∷ 2 ∷ []) ∷ (3 ∷ 4 ∷ []) ∷ [])
      (on_traffic_all memory_conn memory_arrive
        (handle all_written (pos 4) (pos 50) (decrypt xor_cipher) true reachable midnight)
        (pos 1500)
        ([], new_table (new 0))
        (in_two 30 (
          lane_bytes 1
            (handle_udp_all xor_cipher false 2 false plain
              (datagram (incoming 7 (1 ∷ 2 ∷ [])) ∷ later)
              idle).1))).1
unfolding new_sessions load lane_for_session
on_traffic-handle_udp_example =
    on_traffic-handle_udp memory_conn (λ c. c) memory_conn-IsGnetConn memory_arrive
      (λ c bytes. refl) all_written (λ sent p. refl) true (pos 4) (pos 50) reachable (λ s. refl)
      midnight xor_cipher tt 1499 (omega arith) 2 plain (incoming 7 (1 ∷ 2 ∷ [])) later idle
      (in_two 30 (
        lane_bytes 1
          (handle_udp_all xor_cipher false 2 false plain
            (datagram (incoming 7 (1 ∷ 2 ∷ [])) ∷ later) idle).1))
      [] (new_table (new 0)) (new_sessions-Inv ([] ∷ [] ∷ []) (new 0)) refl
      (incoming-IsReadable 7 (1 ∷ 2 ∷ []) (omega arith) (omega arith))
      (
        incoming-IsReadable 9 (5 ∷ []) (omega arith) (omega arith),
        (tt, (incoming-IsReadable 7 (3 ∷ 4 ∷ []) (omega arith) (omega arith), tt)),
      )
      (omega arith) (omega arith) refl (stream_bytes-in_two 30 _) (new_table-Awaits 1 (new 0))
