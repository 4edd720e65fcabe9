-- ===== src/Protocol/Stream/Carries.antt =====
-- internal/client/client.go, sendToUpstream, and internal/server/server.go, handleUpstreamPacket: the
-- frames of one session among those of others.
use t2d.Base.{ℕ, suc, ◌≡◌, ◌≢◌, List, [], ◌∷◌, Result, ok}
use t2d.Protocol.Packet.{packet_type_data}
use t2d.Protocol.Stream.{Frame}

abbrev pub IsData : Frame → Type 0
IsData f = f.header.type ≡ packet_type_data

module _ {E : Type 0} (decrypt : List ℕ → Result E (List ℕ)) (sid : ℕ) where
  -- The frames of the session, numbered from `seq` on without a gap, decrypt to the given datagrams;
  -- the frames of other sessions may be any.
  pub data Carries : ℕ → List Frame → List (List ℕ) → Type 0 where
    nothing : {seq : ℕ} → Carries seq [] []
    other :
        {seq : ℕ} {f : Frame} {fs : List Frame} {ds : List (List ℕ)}
        → f.header.session_id ≢ sid
        → Carries seq fs ds
        → Carries seq (f ∷ fs) ds
    own :
        {seq : ℕ} {f : Frame} {fs : List Frame} {d : List ℕ} {ds : List (List ℕ)}
        → f.header.session_id ≡ sid
        → f.header.sequence_id ≡ seq
        → decrypt f.payload ≡ ok d
        → Carries (suc seq) fs ds
        → Carries seq (f ∷ fs) (d ∷ ds)
