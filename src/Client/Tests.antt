-- ===== src/Client/Tests.antt =====
-- A downstream lane that reads two frames in three pieces.
use t2d.Base.{ℕ, ◌+◌, ◌≡◌, refl, List, [], ◌∷◌, ◌++◌, arith, All}
use t2d.Base.Int.{pos}
use t2d.Protocol.Packet.{marshal, marshal_to, new_data_packet}
use t2d.Protocol.Stream.{StreamBuffer, Frame, new_stream_buffer}
use t2d.Protocol.Stream.View.{unread}
use t2d.Protocol.Stream.Step.{IsFrame}
use t2d.Client.Receive.{Sink, dispatch, drain, receive_all}
use t2d.Client.Receive.Framing.{handle_stream}
use t2d.Client.Receive.Errors.{Stopped, drain-Stopped}

-- Counts bytes and keeps the frames that it is handed.
abbrev log_sink : Sink (ℕ × List Frame)
log_sink = record {
  add_bytes_received = λ s n. (s.0 + n, s.1);
  handle_packet = λ s f. (s.0, s.1 ++ (f ∷ []));
}

abbrev double : ℕ → ℕ → ℕ
double old needed = old + old + needed

abbrev first_frame : Frame
unfolding new_data_packet
first_frame = record { header = new_data_packet 7 1 2; payload = 0xaa ∷ 0xbb ∷ [] }

abbrev second_frame : Frame
unfolding new_data_packet
second_frame = record { header = new_data_packet 9 1 1; payload = 0xcc ∷ [] }

-- The first frame's header is cut in two, and the second piece ends in the second frame's header.
abbrev pieces : List (List ℕ)
pieces =
    (0x54 ∷ 0x43 ∷ 0x50 ∷ 0x50 ∷ 1 ∷ 1 ∷ 0 ∷ 0 ∷ 0 ∷ 0 ∷ 0 ∷ 7 ∷ [])
    ∷ (0 ∷ 0 ∷ 0 ∷ 1 ∷ 0 ∷ 0 ∷ 0 ∷ 2 ∷ 0xaa ∷ 0xbb ∷ 0x54 ∷ 0x43 ∷ [])
    ∷ (0x50 ∷ 0x50 ∷ 1 ∷ 1 ∷ 0 ∷ 0 ∷ 0 ∷ 0 ∷ 0 ∷ 9 ∷ 0 ∷ 0 ∷ 0 ∷ 1 ∷ 0 ∷ 0 ∷ 0 ∷ 1 ∷ 0xcc ∷ [])
    ∷ []

both_good : All (IsFrame (pos 1500)) (first_frame ∷ second_frame ∷ [])
unfolding new_data_packet
both_good = (first_good, (second_good, tt))
  where
    first_good : IsFrame (pos 1500) first_frame
    first_good = record {
      in_range = omega arith;
      accepted = omega arith;
      fits = refl;
      whole = refl;
    }

    second_good : IsFrame (pos 1500) second_frame
    second_good = record {
      in_range = omega arith;
      accepted = omega arith;
      fits = refl;
      whole = refl;
    }

handle_stream_example :
    let r = receive_all log_sink double (new_stream_buffer (pos 64) (pos 1500), (0, [])) pieces in
    (r.1 ≡ (43, first_frame ∷ second_frame ∷ [])) × (unread r.0 ≡ [])
unfolding new_data_packet marshal marshal_to dispatch
handle_stream_example =
    handle_stream log_sink (λ s n f. refl) double (λ old needed. omega arith) (pos 64) (pos 1500)
      pieces (first_frame ∷ second_frame ∷ []) (0, []) both_good refl

-- Twenty bytes that are no header.
abbrev garbage : StreamBuffer
garbage = record {
  buf =
      1 ∷ 2 ∷ 3 ∷ 4 ∷ 5 ∷ 6 ∷ 7 ∷ 8 ∷ 9 ∷ 10 ∷ 11 ∷ 12 ∷ 13 ∷ 14 ∷ 15 ∷ 16 ∷ 17 ∷ 18 ∷ 19 ∷ 20 ∷ [];
  off = 0;
  cap = 64;
  max_payload = pos 1500;
}

drain-Stopped_example : Stopped log_sink (drain log_sink 21 garbage (0, []))
drain-Stopped_example = drain-Stopped log_sink 21 garbage (0, []) (omega arith) (omega arith)
