-- ===== src/Server/Traffic/Tests.antt =====
-- A downstream connection with two control frames and half of a third in its buffer.
use t2d.Base.{ℕ, ◌+◌, ◌≡◌, refl, List, [], ◌∷◌, ◌++◌, arith, take, drop, All}
use t2d.Base.Int.{pos}
use t2d.Protocol.Packet.{PacketHeader, marshal, marshal_to, new_control_packet}
use t2d.Protocol.Stream.{StreamBuffer, Frame}
use t2d.Protocol.Stream.View.{unread}
use t2d.Protocol.Stream.Step.{IsFrame, frame_bytes}
use t2d.Client.Receive.{Sink, drain}
use t2d.Client.Receive.Framing.{frames_bytes}
use t2d.Server.Traffic.{on_traffic}
use t2d.Server.Traffic.Memory.{memory_conn, memory_conn-IsGnetConn, memory_arrive, in_two}
use t2d.Server.Traffic.Frames.{as_client, on_traffic-drain}
use t2d.Server.Traffic.Arrivals.{Handled, on_traffic_all, on_traffic_all-Handled}

-- Keeps what it is handed.
abbrev keep : List Frame → PacketHeader → List ℕ → List Frame
keep s header payload = s ++ (record { header = header; payload = payload } ∷ [])

abbrev first_frame : Frame
unfolding new_control_packet
first_frame = record { header = new_control_packet 7 2; payload = 0xaa ∷ 0xbb ∷ [] }

abbrev second_frame : Frame
unfolding new_control_packet
second_frame = record { header = new_control_packet 9 0; payload = [] }

abbrev both : List Frame
both = first_frame ∷ second_frame ∷ []

both_good : All (IsFrame (pos 1500)) both
unfolding new_control_packet
both_good = (first_good, (second_good, tt))
  where
    first_good : IsFrame (pos 1500) first_frame
    first_good = record {
      in_range = omega arith;
      accepted = omega arith;
      fits = refl;
      whole = refl;
    }

    second_good : IsFrame (pos 1500) second_frame
    second_good = record {
      in_range = omega arith;
      accepted = omega arith;
      fits = refl;
      whole = refl;
    }

abbrev buffered : List ℕ
unfolding marshal_to new_control_packet
buffered = frame_bytes first_frame ++ (frame_bytes second_frame ++ (0x54 ∷ 0x43 ∷ []))

-- All of the first frame in two pieces, and ten bytes of the second.
abbrev come : List (List ℕ)
unfolding marshal_to new_control_packet
come = in_two 5 (take 32 buffered)

abbrev to_come : List ℕ
unfolding marshal_to new_control_packet
to_come = drop 32 (frames_bytes both)

on_traffic_all-Handled_example :
    Handled
      (λ c. c)
      keep
      []
      both
      to_come
      (on_traffic_all memory_conn memory_arrive keep (pos 1500) ([], []) come)
unfolding marshal marshal_to new_control_packet
on_traffic_all-Handled_example =
    on_traffic_all-Handled memory_conn (λ c. c) memory_conn-IsGnetConn 1499 keep memory_arrive
      (λ c bytes. refl) come both to_come [] [] both_good refl (omega arith)

-- The client's way of handling a frame: a count of bytes and the frames themselves.
abbrev log_sink : Sink (ℕ × List Frame)
log_sink = record {
  add_bytes_received = λ s n. (s.0 + n, s.1);
  handle_packet = λ s f. (s.0, s.1 ++ (f ∷ []));
}

-- The same bytes behind three that were read before.
abbrev client_buffer : StreamBuffer
client_buffer = record { buf = 1 ∷ 2 ∷ 3 ∷ buffered; off = 3; cap = 64; max_payload = pos 1500 }

on_traffic-drain_example :
    ((on_traffic memory_conn
        (as_client memory_conn (λ c. c) memory_conn-IsGnetConn log_sink)
        (pos 1500)
        buffered
        (0, [])).1
      ≡ (drain log_sink 45 client_buffer (0, [])).1)
    × ((on_traffic memory_conn
          (as_client memory_conn (λ c. c) memory_conn-IsGnetConn log_sink)
          (pos 1500)
          buffered
          (0, [])).0
        ≡ unread (drain log_sink 45 client_buffer (0, [])).0)
unfolding marshal marshal_to new_control_packet
on_traffic-drain_example =
    on_traffic-drain memory_conn (λ c. c) memory_conn-IsGnetConn log_sink 1499 buffered
      client_buffer (0, []) (record { off_in = omega arith; within_cap = omega arith }) refl refl
