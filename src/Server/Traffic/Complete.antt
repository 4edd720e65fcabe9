-- ===== src/Server/Traffic/Complete.antt =====
-- internal/server/handlers.go, OnTraffic on whole frames.
use t2d.Base.{
  ℕ, zero, suc, ◌<◌, ◌≡◌, refl, ap, ◌∙◌, subst, List, [], ◌∷◌, ◌++◌, arith, length, All,
  append_assoc, length-append,
}
use t2d.Base.Int.{pos}
use t2d.Protocol.Packet.{PacketHeader, header_size}
use t2d.Protocol.Stream.{StreamBuffer, Frame, Next, found, next_ref}
use t2d.Protocol.Stream.View.{IsValid}
use t2d.Protocol.Stream.Step.{
  IsFrame, frame_bytes, length-frame_bytes, next_ref-found, next_ref_few,
}
use t2d.Client.Receive.Framing.{frames_bytes}
use t2d.Server.Traffic.{GnetConn, IsGnetConn, leave, frame, round, read_frames, on_traffic}
use t2d.Server.Traffic.Round.{Agrees, round-Agrees}
use t2d.Server.Traffic.Frames.{read_frames-leave, read_frames-frame}

-- The frames handled one after another.
abbrev pub handle_all : {S : Type 0} → (S → PacketHeader → List ℕ → S) → S → List Frame → S
handle_all handle s [] = s
handle_all handle s (f ∷ fs) = handle_all handle (handle s f.header f.payload) fs

module _ {C : Type 0} (g : GnetConn C) (inbound : C → List ℕ) (law : IsGnetConn g inbound)
    (limit : ℕ) where
  -- A StreamBuffer with the bytes of the connection.
  abbrev pub as_buffer : C → StreamBuffer
  as_buffer c = record {
    buf = inbound c;
    off = 0;
    cap = length (inbound c);
    max_payload = pos (suc limit);
  }

  pub as_buffer-IsValid : (c : C) → IsValid (as_buffer c)
  as_buffer-IsValid c = omega arith

  pub agrees : (c : C) → Agrees g inbound law (round g (pos (suc limit)) c, next_ref (as_buffer c))
  agrees c = round-Agrees g inbound law limit c (as_buffer c) (as_buffer-IsValid c) refl refl

  pub round-frame :
      (c : C) (f : Frame) (rest : List ℕ)
      → IsFrame (pos (suc limit)) f
      → inbound c ≡ frame_bytes f ++ rest
      → (c' : C) × (round g (pos (suc limit)) c ≡ frame c' f.header f.payload) × (inbound c' ≡ rest)
  round-frame c f rest good e =
      let (is_found, left, _, _) =
        next_ref-found {b = as_buffer c} f rest (as_buffer-IsValid c) good e in
      let result : next_ref (as_buffer c) ≡ ((next_ref (as_buffer c)).0, found f) =
        ap (λ (n : Next). ((next_ref (as_buffer c)).0, n)) is_found in
      let (c', step, same) =
        subst (λ (n : StreamBuffer × Next). Agrees g inbound law (round g (pos (suc limit)) c, n))
          result (agrees c) in
      (c', step, same ∙ left)

  pub round-few :
      (c : C)
      → length (inbound c) < header_size
      → (c' : C) × (round g (pos (suc limit)) c ≡ leave c') × (inbound c' ≡ inbound c)
  round-few c few =
      subst (λ (n : StreamBuffer × Next). Agrees g inbound law (round g (pos (suc limit)) c, n))
        (next_ref_few (as_buffer c) few) (agrees c)

  module _ {S : Type 0} (handle : S → PacketHeader → List ℕ → S) where
    read_frames-frames :
        (fs : List Frame) (tail : List ℕ) (fuel : ℕ) (c : C) (s : S)
        → length (inbound c) < fuel
        → All (IsFrame (pos (suc limit))) fs
        → inbound c ≡ frames_bytes fs ++ tail
        → length tail < header_size
        → ((read_frames g handle fuel (pos (suc limit)) c s).1 ≡ handle_all handle s fs)
          × (inbound (read_frames g handle fuel (pos (suc limit)) c s).0 ≡ tail)
    read_frames-frames fs tail zero c s h good e short = absurd (omega arith)
    read_frames-frames [] tail (suc fuel) c s h good e short =
        let (c', step, same) = round-few c (omega (arith, ap length e)) in
        rw (read_frames-leave g inbound law handle fuel (pos (suc limit)) c s step) (refl, same ∙ e)
    read_frames-frames (f ∷ fs) tail (suc fuel) c s h good e short =
        let rest = frames_bytes fs ++ tail in
        let e' = e ∙ append_assoc (frame_bytes f) (frames_bytes fs) tail in
        let (c', step, left) = round-frame c f rest good.0 e' in
        rw (read_frames-frame g inbound law handle fuel (pos (suc limit)) c s step) (
          read_frames-frames fs tail fuel c' (handle s f.header f.payload)
            (omega (
              arith,
              ap length left,
              ap length e',
              length-append (frame_bytes f) rest,
              length-frame_bytes good.0,
            ))
            good.1 left short)

    -- On a connection that keeps its documented promises, and whose buffered bytes are those of
    -- well-formed frames within the limit and fewer than 20 more: OnTraffic handles each of the frames
    -- once, in order, and leaves exactly what is behind them.
    on_traffic-frames :
        (fs : List Frame) (tail : List ℕ) (c : C) (s : S)
        → All (IsFrame (pos (suc limit))) fs
        → inbound c ≡ frames_bytes fs ++ tail
        → length tail < header_size
        → ((on_traffic g handle (pos (suc limit)) c s).1 ≡ handle_all handle s fs)
          × (inbound (on_traffic g handle (pos (suc limit)) c s).0 ≡ tail)
    unfolding on_traffic
    on_traffic-frames fs tail c s good e short =
        read_frames-frames fs tail (suc (g.inbound_buffered c)) c s
          (omega (arith, law.inbound_buffered_lem c)) good e short
