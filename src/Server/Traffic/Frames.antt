-- ===== src/Server/Traffic/Frames.antt =====
-- internal/server/handlers.go, OnTraffic, against the client's read loop.
use t2d.Base.{ℕ, zero, suc, ◌≡◌, refl, ap, ap₂, inl, inr, sym, ◌∙◌, List, [], length}
use t2d.Base.Int.{ℤ, pos}
use t2d.Protocol.Packet.{PacketHeader}
use t2d.Protocol.Stream.{StreamBuffer, Frame, Next, found, incomplete, invalid, next_ref, reset}
use t2d.Protocol.Stream.View.{unread, IsValid}
use t2d.Protocol.Stream.Sound.{next_ref_shrinks, next_ref_keeps}
use t2d.Client.Receive.{Sink, dispatch, drain, Stop}
use t2d.Client.Receive.Framing.{drain-found, drain-incomplete}
use t2d.Client.Receive.Errors.{drain-invalid}
use t2d.Server.Traffic.{GnetConn, IsGnetConn, leave, frame, round, read_frames, on_traffic}
use t2d.Server.Traffic.Round.{Agrees, round-Agrees}

unread-reset : (b : StreamBuffer) → unread (reset b) ≡ []
unfolding reset
unread-reset b = refl

module _ {C : Type 0} (g : GnetConn C) (inbound : C → List ℕ) (law : IsGnetConn g inbound) where
  module _ {S : Type 0} (handle : S → PacketHeader → List ℕ → S) where
    pub read_frames-leave :
        (fuel : ℕ) (limit : ℤ) (c : C) (s : S) {c' : C}
        → round g limit c ≡ leave c'
        → read_frames g handle (suc fuel) limit c s ≡ (c', s)
    unfolding read_frames
    read_frames-leave fuel limit c s e = rw (e, read_frames) refl

    pub read_frames-frame :
        (fuel : ℕ) (limit : ℤ) (c : C) (s : S) {c' : C} {h : PacketHeader} {p : List ℕ}
        → round g limit c ≡ frame c' h p
        → read_frames g handle (suc fuel) limit c s
          ≡ read_frames g handle fuel limit c' (handle s h p)
    unfolding read_frames
    read_frames-frame fuel limit c s e = rw (e, read_frames) refl

  module _ {S : Type 0} (sink : Sink S) where
    abbrev pub as_client : S → PacketHeader → List ℕ → S
    as_client s h p = dispatch sink s (record { header = h; payload = p })

    -- The same frames are handled, and the same bytes are left.
    abbrev Same : C × S → StreamBuffer × S × Stop → Type 0
    Same r d = (r.1 ≡ d.1) × (inbound r.0 ≡ unread d.0)

    Same-by :
        {r r' : C × S} {d d' : StreamBuffer × S × Stop} → r ≡ r' → d ≡ d' → Same r' d' → Same r d
    Same-by p q h = rw (p, q) h

    loop_step :
        (limit fuel : ℕ) (c : C) (b : StreamBuffer) (s : S)
        → ((c' : C) (f : Frame)
            → (next_ref b).1 ≡ found f
            → inbound c' ≡ unread (next_ref b).0
            → Same
                (read_frames g as_client fuel (pos (suc limit)) c' (dispatch sink s f))
                (drain sink fuel (next_ref b).0 (dispatch sink s f)))
        → (n : Next) → (next_ref b).1 ≡ n
        → Agrees g inbound law (round g (pos (suc limit)) c, ((next_ref b).0, n))
        → Same
            (read_frames g as_client (suc fuel) (pos (suc limit)) c s)
            (drain sink (suc fuel) b s)
    loop_step limit fuel c b s later (found f) e (c', step, left) =
        Same-by (read_frames-frame as_client fuel (pos (suc limit)) c s step)
          (drain-found sink fuel b s e) (later c' f e left)
    loop_step limit fuel c b s later incomplete e (c', step, left) =
        let kept = next_ref_keeps b (inl e) in
        Same-by (read_frames-leave as_client fuel (pos (suc limit)) c s step)
          (drain-incomplete sink fuel b s (ap₂ (λ (x : StreamBuffer) (y : Next). (x, y)) kept e))
          (refl, left ∙ ap unread kept)
    loop_step limit fuel c b s later (invalid x) e (c', step, left) =
        let kept = next_ref_keeps b (inr (x, e)) in
        Same-by (read_frames-leave as_client fuel (pos (suc limit)) c s step)
          (drain-invalid sink fuel b s x (ap₂ (λ (x : StreamBuffer) (y : Next). (x, y)) kept e))
          (refl, left ∙ sym (unread-reset b))

    read_frames-drain :
        (limit fuel : ℕ) (c : C) (b : StreamBuffer) (s : S)
        → IsValid b
        → inbound c ≡ unread b
        → b.max_payload ≡ pos (suc limit)
        → Same (read_frames g as_client fuel (pos (suc limit)) c s) (drain sink fuel b s)
    unfolding read_frames drain
    read_frames-drain limit zero c b s v same cap = (refl, same)
    read_frames-drain limit (suc fuel) c b s v same cap =
        loop_step limit fuel c b s
          (λ c' f e left.
            let (valid, _, limits) = next_ref_shrinks v e in
            read_frames-drain limit fuel c' (next_ref b).0 (dispatch sink s f) valid left
              (limits ∙ cap))
          (next_ref b).1 refl (round-Agrees g inbound law limit c b v same cap)

    -- On a connection that keeps its documented promises, and a valid StreamBuffer with the same unread
    -- bytes and the same positive limit: OnTraffic, given the client's way of handling a frame, ends in
    -- the state in which the inner loop of handleDownstream ends, with the same bytes left.
    pub on_traffic-drain :
        (limit : ℕ) (c : C) (b : StreamBuffer) (s : S)
        → IsValid b
        → inbound c ≡ unread b
        → b.max_payload ≡ pos (suc limit)
        → ((on_traffic g as_client (pos (suc limit)) c s).1
            ≡ (drain sink (suc (length (unread b))) b s).1)
          × (inbound (on_traffic g as_client (pos (suc limit)) c s).0
              ≡ unread (drain sink (suc (length (unread b))) b s).0)
    unfolding on_traffic
    on_traffic-drain limit c b s v same cap =
        let enough : g.inbound_buffered c ≡ length (unread b) =
          law.inbound_buffered_lem c ∙ ap length same in
        rw enough (read_frames-drain limit (suc (length (unread b))) c b s v same cap)
