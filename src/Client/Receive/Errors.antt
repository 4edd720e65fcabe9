-- ===== src/Client/Receive/Errors.antt =====
-- internal/client/client.go, handleDownstream: the loop ends on any bytes, and what an error costs.
use t2d.Base.{ℕ, zero, suc, ◌<◌, ◌≡◌, refl, inl, inr, [], arith, length}
use t2d.Protocol.Error.{ProtocolError}
use t2d.Protocol.Stream.{StreamBuffer, Frame, Next, found, incomplete, invalid, next_ref, reset}
use t2d.Protocol.Stream.View.{unread, IsValid, reset-IsValid}
use t2d.Protocol.Stream.Sound.{next_ref_shrinks, next_ref_keeps}
use t2d.Client.Receive.{Sink, dispatch, drain, Stop, drained, rejected, out_of_fuel}

module _ {S : Type 0} (sink : Sink S) where
  -- What holds of the buffer when the inner loop stops.
  abbrev pub Stopped : StreamBuffer × S × Stop → Type 0
  Stopped (b, s, drained) = IsValid b × ((next_ref b).1 ≡ incomplete)
  Stopped (b, s, rejected e) = IsValid b × (unread b ≡ [])
  Stopped (b, s, out_of_fuel) = ⊥

  -- On any bytes the loop stops for a reason of the source: the buffer holds no whole frame, or an
  -- error has emptied it.
  pub drain-Stopped :
      (fuel : ℕ) (b : StreamBuffer) (s : S)
      → IsValid b
      → length (unread b) < fuel
      → Stopped (drain sink fuel b s)
  unfolding drain
  drain-Stopped zero b s v h = absurd (omega arith)
  drain-Stopped (suc fuel) b s v h =
      go
        (λ f e.
          let (valid, less, _) = next_ref_shrinks v e in
          drain-Stopped fuel (next_ref b).0 (dispatch sink s f) valid (omega arith))
        (next_ref b).1 refl
    where
      go :
          ((f : Frame)
            → (next_ref b).1 ≡ found f
            → Stopped (drain sink fuel (next_ref b).0 (dispatch sink s f)))
          → (r : Next) → (next_ref b).1 ≡ r
          → Stopped (drain sink (suc fuel) b s)
      go rest (found f) e = rw (e, drain) (rest f e)
      go rest incomplete e = let same = next_ref_keeps b (inl e) in rw (e, drain) (rw same (v, e))
      go rest (invalid x) e =
          let same = next_ref_keeps b (inr (x, e)) in rw (e, drain) (rw same (reset-IsValid v))

  -- One bad header costs everything that is buffered, good frames behind it too.
  pub drain-invalid :
      (fuel : ℕ) (b : StreamBuffer) (s : S) (e : ProtocolError)
      → next_ref b ≡ (b, invalid e)
      → drain sink (suc fuel) b s ≡ (reset b, s, rejected e)
  unfolding drain
  drain-invalid fuel b s e h = ground arith
