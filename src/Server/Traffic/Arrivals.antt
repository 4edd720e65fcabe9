-- ===== src/Server/Traffic/Arrivals.antt =====
-- internal/server/handlers.go, OnTraffic, called each time that bytes have come, however TCP cuts them.
use t2d.Base.{
  ℕ, zero, suc, ◌<◌, ◌≡◌, refl, ap, sym, ◌∙◌, subst, List, [], ◌∷◌, ◌++◌, arith, length, drop, All,
  append_assoc, append-nil, length-append, length-drop, append_cut, append_eq_nil, All-append_right,
}
use native.Mathlib.Decide.{dec_lt}
use t2d.Base.Int.{ℤ, pos}
use t2d.Protocol.Packet.{PacketHeader}
use t2d.Protocol.Stream.{StreamBuffer, Frame, Next}
use t2d.Protocol.Stream.Step.{IsFrame, frame_bytes, length-frame_bytes, next_ref-incomplete}
use t2d.Client.Receive.Framing.{frames_bytes, stream_bytes}
use t2d.Server.Traffic.{GnetConn, IsGnetConn, leave, round, read_frames, on_traffic}
use t2d.Server.Traffic.Round.{Agrees}
use t2d.Server.Traffic.Frames.{read_frames-leave, read_frames-frame}
use t2d.Server.Traffic.Complete.{
  handle_all, as_buffer, as_buffer-IsValid, agrees, round-frame, round-few,
}

module _ {C : Type 0} (g : GnetConn C) (arrive : C → List ℕ → C) {S : Type 0}
    (handle : S → PacketHeader → List ℕ → S) where
  -- What the event loop does with a connection: it adds what a read of the socket has brought to the
  -- inbound buffer and calls OnTraffic.
  pub on_traffic_all : ℤ → C × S → List (List ℕ) → C × S
  unfolding on_traffic
  on_traffic_all limit (c, s) [] = (c, s)
  on_traffic_all limit (c, s) (chunk ∷ chunks) =
      on_traffic_all limit (on_traffic g handle limit (arrive c chunk) s) chunks

-- Of the frames that these bytes begin none is whole.
abbrev pub NoneWhole : List ℕ → List Frame → Type 0
NoneWhole u [] = Unit
NoneWhole u (f ∷ _) = length u < length (frame_bytes f)

-- Of `fs`, whose bytes are all that was read and `more` that is still to come, exactly the frames that
-- have come as a whole were handled, in order, and the bytes behind them wait in the connection.
pub record Handled {C S : Type 0} (inbound : C → List ℕ) (handle : S → PacketHeader → List ℕ → S)
    (s : S) (fs : List Frame) (more : List ℕ) (r : C × S) : Type 0 where
  pub done : List Frame
  pub left : List Frame
  pub split : fs ≡ done ++ left
  pub handled : r.1 ≡ handle_all handle s done
  pub pending : inbound r.0 ++ more ≡ frames_bytes left
  pub none_whole : NoneWhole (inbound r.0) left

module _ {C : Type 0} (g : GnetConn C) (inbound : C → List ℕ) (law : IsGnetConn g inbound)
    (limit : ℕ) where
  round-part :
      (c : C) (f : Frame) (more rest : List ℕ)
      → IsFrame (pos (suc limit)) f
      → inbound c ++ more ≡ frame_bytes f ++ rest
      → length (inbound c) < length (frame_bytes f)
      → (c' : C) × (round g (pos (suc limit)) c ≡ leave c') × (inbound c' ≡ inbound c)
  round-part c f more rest good e short =
      subst (λ (n : StreamBuffer × Next). Agrees g inbound law (round g (pos (suc limit)) c, n))
        (next_ref-incomplete {b = as_buffer g inbound law limit c} f more rest
          (as_buffer-IsValid g inbound law limit c) good e short)
        (agrees g inbound law limit c)

  module _ {S : Type 0} (handle : S → PacketHeader → List ℕ → S) where
    Handled-cons :
        {s : S} (f : Frame) {fs : List Frame} {more : List ℕ} {r : C × S}
        → Handled inbound handle (handle s f.header f.payload) fs more r
        → Handled inbound handle s (f ∷ fs) more r
    Handled-cons f h = record {
      done = f ∷ h.done;
      left = h.left;
      split = ap (◌∷◌ f) h.split;
      handled = h.handled;
      pending = h.pending;
      none_whole = h.none_whole;
    }

    -- The loop stops at once: nothing is whole.
    Handled-none :
        (fuel : ℕ) (c : C) (s : S) (fs : List Frame) (more : List ℕ)
        → (c' : C) × (round g (pos (suc limit)) c ≡ leave c') × (inbound c' ≡ inbound c)
        → inbound c ++ more ≡ frames_bytes fs
        → NoneWhole (inbound c) fs
        → Handled inbound handle s fs more (read_frames g handle (suc fuel) (pos (suc limit)) c s)
    Handled-none fuel c s fs more (c', step, same) e none =
        rw (read_frames-leave g inbound law handle fuel (pos (suc limit)) c s step) (record {
          done = [];
          left = fs;
          split = refl;
          handled = refl;
          pending = ap (λ (u : List ℕ). u ++ more) same ∙ e;
          none_whole = subst (λ (u : List ℕ). NoneWhole u fs) (sym same) none;
        })

    read_frames-Handled :
        (fuel : ℕ) (fs : List Frame) (more : List ℕ) (c : C) (s : S)
        → All (IsFrame (pos (suc limit))) fs
        → inbound c ++ more ≡ frames_bytes fs
        → length (inbound c) < fuel
        → Handled inbound handle s fs more (read_frames g handle fuel (pos (suc limit)) c s)
    read_frames-Handled zero fs more c s good e h = absurd (omega arith)
    read_frames-Handled (suc fuel) [] more c s good e h =
        Handled-none fuel c s [] more
          (round-few g inbound law limit c
            (omega (arith, ap length (append_eq_nil (inbound c) more e).0)))
          e tt
    read_frames-Handled (suc fuel) (f ∷ fs) more c s good e h =
        elim (dec_lt (length (inbound c)) (length (frame_bytes f))) [
          | yes part ↦
              Handled-none fuel c s (f ∷ fs) more
                (round-part c f more (frames_bytes fs) good.0 e part) e part
          | no enough ↦
              let (first, rest) =
                append_cut (inbound c) more (frame_bytes f) (frames_bytes fs) (e ∙ refl)
                  (omega arith) in
              let (c', step, left) =
                round-frame g inbound law limit c f (drop (length (frame_bytes f)) (inbound c))
                  good.0 first in
              rw (read_frames-frame g inbound law handle fuel (pos (suc limit)) c s step) (
                Handled-cons f (
                  read_frames-Handled fuel fs more c' (handle s f.header f.payload) good.1
                    (ap (λ (u : List ℕ). u ++ more) left ∙ rest)
                    (omega (
                      arith,
                      ap length left,
                      length-drop (length (frame_bytes f)) (inbound c),
                      length-frame_bytes {m = pos (suc limit)} {f = f} good.0,
                    ))))
        ]

    handle_all-append :
        (s : S) (fs os : List Frame)
        → handle_all handle s (fs ++ os) ≡ handle_all handle (handle_all handle s fs) os
    handle_all-append s [] os = refl
    handle_all-append s (f ∷ fs) os = handle_all-append (handle s f.header f.payload) fs os

    -- What is handled later comes behind what was handled before.
    Handled-then :
        {s : S} {fs : List Frame} {before more : List ℕ} {r r' : C × S}
        → (h : Handled inbound handle s fs before r) → Handled inbound handle r.1 h.left more r'
        → Handled inbound handle s fs more r'
    Handled-then {s} h h' = record {
      done = h.done ++ h'.done;
      left = h'.left;
      split =
          h.split
          ∙ ap (λ (os : List Frame). h.done ++ os) h'.split
          ∙ sym (append_assoc h.done h'.done h'.left);
      handled =
          h'.handled
          ∙ ap (λ (t : S). handle_all handle t h'.done) h.handled
          ∙ sym (handle_all-append s h.done h'.done);
      pending = h'.pending;
      none_whole = h'.none_whole;
    }

    module _ (arrive : C → List ℕ → C)
        (inbound-arrive : (c : C) (bytes : List ℕ)
          → inbound (arrive c bytes) ≡ inbound c ++ bytes) where
      on_traffic-Handled :
          (chunk : List ℕ) (fs : List Frame) (more : List ℕ) (c : C) (s : S)
          → All (IsFrame (pos (suc limit))) fs
          → inbound c ++ (chunk ++ more) ≡ frames_bytes fs
          → Handled inbound handle s fs more
              (on_traffic g handle (pos (suc limit)) (arrive c chunk) s)
      unfolding on_traffic
      on_traffic-Handled chunk fs more c s good e =
          read_frames-Handled (suc (g.inbound_buffered (arrive c chunk))) fs more (arrive c chunk) s
            good
            (ap (λ (u : List ℕ). u ++ more) (inbound-arrive c chunk)
              ∙ append_assoc (inbound c) chunk more
              ∙ e)
            (omega (arith, law.inbound_buffered_lem (arrive c chunk)))

      -- A connection that keeps its documented promises waits for the first of some well-formed frames
      -- within the limit, of which it has part of the first at most. Their bytes come in chunks of any
      -- sizes, and `more` of them are still to come: then exactly the frames whose last byte has come
      -- were handled, once each and in order, and what has come of the next waits in the connection.
      pub on_traffic_all-Handled :
          (chunks : List (List ℕ)) (fs : List Frame) (more : List ℕ) (c : C) (s : S)
          → All (IsFrame (pos (suc limit))) fs
          → inbound c ++ (stream_bytes chunks ++ more) ≡ frames_bytes fs
          → NoneWhole (inbound c) fs
          → Handled inbound handle s fs more
              (on_traffic_all g arrive handle (pos (suc limit)) (c, s) chunks)
      unfolding on_traffic_all
      on_traffic_all-Handled [] fs more c s good e none = record {
        done = [];
        left = fs;
        split = refl;
        handled = refl;
        pending = e;
        none_whole = none;
      }
      on_traffic_all-Handled (chunk ∷ chunks) fs more c s good e none =
          let first = on_traffic-Handled chunk fs (stream_bytes chunks ++ more) c s good (
            ap (λ (u : List ℕ). inbound c ++ u)
              (sym (append_assoc chunk (stream_bytes chunks) more))
            ∙ e) in
          let r = on_traffic g handle (pos (suc limit)) (arrive c chunk) s in
          Handled-then first (
            on_traffic_all-Handled chunks first.left more r.0 r.1
              (All-append_right (IsFrame (pos (suc limit))) first.done first.left
                (subst (All (IsFrame (pos (suc limit)))) first.split good))
              first.pending first.none_whole)

      NoneWhole-nil : (fs : List Frame) → All (IsFrame (pos (suc limit))) fs → NoneWhole [] fs
      NoneWhole-nil [] good = tt
      NoneWhole-nil (f ∷ fs) good =
          omega (arith, length-frame_bytes {m = pos (suc limit)} {f = f} good.0)

      none_left :
          (u : List ℕ) (fs : List Frame) → NoneWhole u fs → u ++ [] ≡ frames_bytes fs → fs ≡ []
      none_left u [] none e = refl
      none_left u (f ∷ fs) none e = absurd (
          omega (
            arith,
            ap length e,
            ap length (append-nil u),
            length-append (frame_bytes f) (frames_bytes fs),
          ))

      -- Once all the bytes have come, all the frames are handled and nothing waits.
      pub on_traffic_all-frames :
          (chunks : List (List ℕ)) (fs : List Frame) (c : C) (s : S)
          → All (IsFrame (pos (suc limit))) fs
          → inbound c ≡ []
          → stream_bytes chunks ≡ frames_bytes fs
          → let r = on_traffic_all g arrive handle (pos (suc limit)) (c, s) chunks in
            (r.1 ≡ handle_all handle s fs) × (inbound r.0 ≡ [])
      on_traffic_all-frames chunks fs c s good empty e =
          let h =
            on_traffic_all-Handled chunks fs [] c s good
              (ap (λ (u : List ℕ). u ++ (stream_bytes chunks ++ [])) empty
                ∙ append-nil (stream_bytes chunks)
                ∙ e)
              (subst (λ (u : List ℕ). NoneWhole u fs) (sym empty) (NoneWhole-nil fs good)) in
          let all_done = none_left _ h.left h.none_whole h.pending in
          (
            h.handled
                ∙ ap (handle_all handle s) (
                    sym (
                      h.split
                      ∙ ap (λ (os : List Frame). h.done ++ os) all_done
                      ∙ append-nil h.done)),
            (append_eq_nil _ [] (h.pending ∙ ap frames_bytes all_done)).0,
          )
