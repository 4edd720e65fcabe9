-- ===== src/Client/Receive/Framing.antt =====
-- internal/client/client.go, handleDownstream: however TCP cuts the stream, the frames come out.
use t2d.Base.{
  ℕ, zero, suc, ◌≤◌, ◌<◌, ◌≡◌, refl, sym, ap, ◌∙◌, List, [], ◌∷◌, ◌++◌, arith, length, append_cut,
  append_eq_nil, All, drop, append_assoc, append-nil, length-append, length-drop, All-append_right,
  subst,
}
use native.Mathlib.Decide.{dec_lt}
use t2d.Base.Int.{ℤ}
use t2d.Protocol.Packet.{marshal}
use t2d.Protocol.Packet.Layout.{length-marshal}
use t2d.Protocol.Stream.{StreamBuffer, Frame, found, incomplete, next_ref, write, new_stream_buffer}
use t2d.Protocol.Stream.View.{
  unread, IsValid, unread-write, write-IsValid, max_payload-write, new_stream_buffer-IsValid,
  max_payload-new,
}
use t2d.Protocol.Stream.Step.{
  IsFrame, frame_bytes, next_ref-found, next_ref-incomplete, next_ref_few, length-frame_bytes,
}
use t2d.Client.Receive.{Sink, dispatch, drain, Stop, drained, receive, receive_all}

-- What a peer that sends these frames in order writes to the stream.
abbrev pub frames_bytes : List Frame → List ℕ
frames_bytes [] = []
frames_bytes (f ∷ fs) = frame_bytes f ++ frames_bytes fs

-- The chunks as one stream.
abbrev pub stream_bytes : List (List ℕ) → List ℕ
stream_bytes [] = []
stream_bytes (c ∷ cs) = c ++ stream_bytes cs

module _ {S : Type 0} (sink : Sink S) where
  -- The frames handled one after another, in the order given.
  abbrev pub dispatch_all : S → List Frame → S
  dispatch_all s [] = s
  dispatch_all s (f ∷ fs) = dispatch_all (dispatch sink s f) fs

  pub drain-found :
      (fuel : ℕ) (b : StreamBuffer) (s : S) {f : Frame}
      → (next_ref b).1 ≡ found f
      → drain sink (suc fuel) b s ≡ drain sink fuel (next_ref b).0 (dispatch sink s f)
  unfolding drain
  drain-found fuel b s e = rw (e, drain)

  pub drain-incomplete :
      (fuel : ℕ) (b : StreamBuffer) (s : S)
      → next_ref b ≡ (b, incomplete)
      → drain sink (suc fuel) b s ≡ (b, s, drained)
  unfolding drain
  drain-incomplete fuel b s e = ground arith

  -- No frame of `left` is whole in the buffer.
  abbrev NoneWhole : StreamBuffer → List Frame → Type 0
  NoneWhole b [] = Unit
  NoneWhole b (f ∷ _) = length (unread b) < length (frame_bytes f)

  -- How far the loop gets in a stream of `fs` of which `more` is still to come.
  record Drained (b : StreamBuffer) (s : S) (fs : List Frame) (more : List ℕ)
      (r : StreamBuffer × S × Stop) : Type 0 where
    done : List Frame
    left : List Frame
    split : fs ≡ done ++ left
    handled : r.1 ≡ dispatch_all s done
    stopped : r.2 ≡ drained
    pending : unread r.0 ++ more ≡ frames_bytes left
    none_whole : NoneWhole r.0 left
    valid : IsValid r.0
    limit : r.0.max_payload ≡ b.max_payload

  -- One frame more at the front.
  Drained-cons :
      {b b' : StreamBuffer} {s : S} (f : Frame) {fs : List Frame} {more : List ℕ}
      {r : StreamBuffer × S × Stop}
      → b'.max_payload ≡ b.max_payload
      → Drained b' (dispatch sink s f) fs more r
      → Drained b s (f ∷ fs) more r
  Drained-cons f same d = record {
    done = f ∷ d.done;
    left = d.left;
    split = ap (◌∷◌ f) d.split;
    handled = d.handled;
    stopped = d.stopped;
    pending = d.pending;
    none_whole = d.none_whole;
    valid = d.valid;
    limit = d.limit ∙ same;
  }

  drain-Drained :
      (fuel : ℕ) (fs : List Frame) (more : List ℕ) (b : StreamBuffer) (s : S)
      → IsValid b
      → All (IsFrame b.max_payload) fs
      → unread b ++ more ≡ frames_bytes fs
      → length (unread b) < fuel
      → Drained b s fs more (drain sink fuel b s)
  drain-Drained zero fs more b s v g e h = absurd (omega arith)
  drain-Drained (suc fuel) [] more b s v g e h =
      rw
        (drain-incomplete fuel b s
          (next_ref_few b (omega (arith, ap length (append_eq_nil (unread b) more e).0))))
        (record {
          done = [];
          left = [];
          split = refl;
          handled = refl;
          stopped = refl;
          pending = e;
          none_whole = tt;
          valid = v;
          limit = refl;
        })
  drain-Drained (suc fuel) (f ∷ fs) more b s v g e h =
      elim (dec_lt (length (unread b)) (length (frame_bytes f))) [
        | yes part ↦
            rw
              (drain-incomplete fuel b s
                (next_ref-incomplete f more (frames_bytes fs) v g.0 e part))
              (record {
                done = [];
                left = f ∷ fs;
                split = refl;
                handled = refl;
                stopped = refl;
                pending = e;
                none_whole = part;
                valid = v;
                limit = refl;
              })
        | no enough ↦
            let cut =
              append_cut (unread b) more (frame_bytes f) (frames_bytes fs) (e ∙ refl)
                (omega arith) in
            let (first, rest) = cut in
            let got = next_ref-found f (drop (length (frame_bytes f)) (unread b)) v g.0 first in
            rw (drain-found fuel b s got.0) (
              Drained-cons f got.3 (
                drain-Drained fuel fs more (next_ref b).0 (dispatch sink s f) got.2
                  (subst (λ (m : ℤ). All (IsFrame m) fs) (sym got.3) g.1)
                  (ap (λ (u : List ℕ). u ++ more) got.1 ∙ rest)
                  (omega (
                    arith,
                    ap length got.1,
                    length-drop (length (frame_bytes f)) (unread b),
                    length-frame_bytes {m = b.max_payload} {f = f} g.0,
                  ))))
      ]

  -- The byte counts of the chunks, in the order read.
  abbrev pub add_all : S → List (List ℕ) → S
  add_all s [] = s
  add_all s (c ∷ cs) = add_all (sink.add_bytes_received s (length c)) cs

  dispatch_all-append :
      (s : S) (fs gs : List Frame) → dispatch_all s (fs ++ gs) ≡ dispatch_all (dispatch_all s fs) gs
  dispatch_all-append s [] gs = refl
  dispatch_all-append s (f ∷ fs) gs = dispatch_all-append (dispatch sink s f) fs gs

  -- Counting bytes and handling a frame do not depend on one another.
  abbrev pub CountsApart : Type 0
  CountsApart =
      (s : S) (n : ℕ) (f : Frame)
      → sink.handle_packet (sink.add_bytes_received s n) f
        ≡ sink.add_bytes_received (sink.handle_packet s f) n

  module _ (apart : CountsApart) where
    dispatch-add :
        (s : S) (n : ℕ) (f : Frame)
        → dispatch sink (sink.add_bytes_received s n) f
          ≡ sink.add_bytes_received (dispatch sink s f) n
    unfolding dispatch
    dispatch-add s n f = ground (arith, apart s n f)

    dispatch_all-add :
        (s : S) (n : ℕ) (fs : List Frame)
        → dispatch_all (sink.add_bytes_received s n) fs
          ≡ sink.add_bytes_received (dispatch_all s fs) n
    dispatch_all-add s n [] = refl
    dispatch_all-add s n (f ∷ fs) =
        ap (λ (t : S). dispatch_all t fs) (dispatch-add s n f)
        ∙ dispatch_all-add (dispatch sink s f) n fs

    add_all-dispatch_all :
        (s : S) (cs : List (List ℕ)) (fs : List Frame)
        → add_all (dispatch_all s fs) cs ≡ dispatch_all (add_all s cs) fs
    add_all-dispatch_all s [] fs = refl
    add_all-dispatch_all s (c ∷ cs) fs =
        ap (λ (t : S). add_all t cs) (sym (dispatch_all-add s (length c) fs))
        ∙ add_all-dispatch_all (sink.add_bytes_received s (length c)) cs fs

    module _ (grow : ℕ → ℕ → ℕ) (enough : (old needed : ℕ) → needed ≤ grow old needed) where
      -- The buffer and the state after a chunk, in terms of the frames that it completes.
      record Received (b : StreamBuffer) (s : S) (c : List ℕ) (fs : List Frame) (more : List ℕ)
          (r : StreamBuffer × S) : Type 0 where
        done : List Frame
        left : List Frame
        split : fs ≡ done ++ left
        handled : r.1 ≡ dispatch_all (sink.add_bytes_received s (length c)) done
        pending : unread r.0 ++ more ≡ frames_bytes left
        none_whole : NoneWhole r.0 left
        valid : IsValid r.0
        limit : r.0.max_payload ≡ b.max_payload

      receive-Received :
          (b : StreamBuffer) (s : S) (c : List ℕ) (fs : List Frame) (more : List ℕ)
          → IsValid b
          → All (IsFrame b.max_payload) fs
          → unread b ++ (c ++ more) ≡ frames_bytes fs
          → Received b s c fs more (receive sink grow (b, s) c)
      unfolding receive
      receive-Received b s c fs more v g e = record {
        done = d.done;
        left = d.left;
        split = d.split;
        handled = d.handled;
        pending = d.pending;
        none_whole = d.none_whole;
        valid = d.valid;
        limit = d.limit ∙ max_payload-write grow b c;
      }
        where
          b' : StreamBuffer
          b' = write grow b c

          s' : S
          s' = sink.add_bytes_received s (length c)

          d : Drained b' s' fs more (drain sink (suc (length b'.buf)) b' s')
          d =
              drain-Drained (suc (length b'.buf)) fs more b' s' (write-IsValid grow enough c v)
                (subst (λ (m : ℤ). All (IsFrame m) fs) (sym (max_payload-write grow b c)) g)
                (rw (unread-write grow c v) (append_assoc (unread b) c more ∙ e))
                (omega (arith, length-drop b'.off b'.buf))

      no_frame_left :
          (b : StreamBuffer) (fs : List Frame)
          → NoneWhole b fs
          → unread b ++ [] ≡ frames_bytes fs
          → fs ≡ []
      no_frame_left b [] n e = refl
      no_frame_left b (f ∷ fs) n e = absurd (
          omega (
            arith,
            ap length e,
            ap length (append-nil (unread b)),
            length-append (frame_bytes f) (frames_bytes fs),
          ))

      receive_all-frames :
          (chunks : List (List ℕ)) (fs : List Frame) (b : StreamBuffer) (s : S)
          → IsValid b
          → All (IsFrame b.max_payload) fs
          → NoneWhole b fs
          → unread b ++ stream_bytes chunks ≡ frames_bytes fs
          → ((receive_all sink grow (b, s) chunks).1 ≡ dispatch_all (add_all s chunks) fs)
            × (unread (receive_all sink grow (b, s) chunks).0 ≡ [])
      unfolding receive_all
      receive_all-frames [] fs b s v g n e =
          let none_left = no_frame_left b fs n e in
          (
            sym (ap (dispatch_all s) none_left),
            (append_eq_nil (unread b) [] (e ∙ ap frames_bytes none_left)).0,
          )
      receive_all-frames (c ∷ cs) fs b s v g n e =
          let d = receive-Received b s c fs (stream_bytes cs) v g e in
          let r = receive sink grow (b, s) c in
          let ih =
            receive_all-frames cs d.left r.0 r.1 d.valid
              (subst (λ (m : ℤ). All (IsFrame m) d.left) (sym d.limit)
                (All-append_right (IsFrame b.max_payload) d.done d.left
                  (subst (All (IsFrame b.max_payload)) d.split g)))
              d.none_whole d.pending in
          (
            ih.0
                ∙ ap (λ (t : S). dispatch_all (add_all t cs) d.left) d.handled
                ∙ ap (λ (t : S). dispatch_all t d.left)
                    (add_all-dispatch_all (sink.add_bytes_received s (length c)) cs d.done)
                ∙ sym (dispatch_all-append (add_all s (c ∷ cs)) d.done d.left)
                ∙ sym (ap (dispatch_all (add_all s (c ∷ cs))) d.split),
            ih.1,
          )

      NoneWhole-at_start :
          (capacity limit : ℤ) (fs : List Frame) → NoneWhole (new_stream_buffer capacity limit) fs
      NoneWhole-at_start capacity limit [] = tt
      NoneWhole-at_start capacity limit (f ∷ fs) = omega (
        arith,
        ap length (new_stream_buffer-IsValid capacity limit).1,
        length-append (marshal f.header) f.payload,
        length-marshal f.header,
      )

      -- Whatever the chunks are in which the stream of some frames arrives at a new buffer, the
      -- frames are handled once each and in order, and no byte stays behind.
      pub handle_stream :
          (capacity limit : ℤ) (chunks : List (List ℕ)) (fs : List Frame) (s : S)
          → All (IsFrame limit) fs
          → stream_bytes chunks ≡ frames_bytes fs
          → let r = receive_all sink grow (new_stream_buffer capacity limit, s) chunks in
            (r.1 ≡ dispatch_all (add_all s chunks) fs) × (unread r.0 ≡ [])
      handle_stream capacity limit chunks fs s g e =
          let fresh = new_stream_buffer-IsValid capacity limit in
          receive_all-frames chunks fs (new_stream_buffer capacity limit) s fresh.0
            (subst (λ (m : ℤ). All (IsFrame m) fs) (sym (max_payload-new capacity limit)) g)
            (NoneWhole-at_start capacity limit fs)
            (ap (λ (u : List ℕ). u ++ stream_bytes chunks) fresh.1 ∙ e)
