-- ===== src/Server/Lanes/Frames.antt =====
-- internal/server/server.go, sendToDownstream: the frame that a lane gets is what the client reads.
use t2d.Base.{ℕ, ◌^◌, ◌≡◌, ◌<◌, List, ◌++◌, false, length}
use t2d.Protocol.Packet.{new_data_packet}
use t2d.Protocol.Stream.{StreamBuffer, found, next_ref}
use t2d.Protocol.Stream.DataFrame.{data_frame, data_frame_lem, data_frame-IsFrame}
use t2d.Protocol.Stream.View.{IsValid, unread}
use t2d.Protocol.Stream.Step.{frame_bytes, next_ref-found, too_large}
use t2d.Server.Lanes.{build_frame}

pub build_frame_lem :
    (sid seq : ℕ) (body : List ℕ)
    → length body < 2 ^ 32
    → build_frame sid seq body ≡ frame_bytes (data_frame sid seq body)
unfolding build_frame
build_frame_lem sid seq body h = data_frame_lem sid seq body h

-- A reply's frame, for numbers and a length below 2³² and a length within the client's limit, at the
-- head of what the client has not read yet: NextRef returns the session, sequence number and bytes it
-- was built from, and leaves what follows.
pub next_ref-build_frame :
    {b : StreamBuffer} (sid seq : ℕ) (body rest : List ℕ)
    → IsValid b
    → sid < 2 ^ 32
    → seq < 2 ^ 32
    → length body < 2 ^ 32
    → too_large b.max_payload (length body) ≡ false
    → unread b ≡ build_frame sid seq body ++ rest
    → ((next_ref b).1
        ≡ found (record { header = new_data_packet sid seq (length body); payload = body }))
      × (unread (next_ref b).0 ≡ rest)
next_ref-build_frame {b} sid seq body rest v hs hq hl fits e =
    let r =
      next_ref-found (data_frame sid seq body) rest v
        (data_frame-IsFrame b.max_payload sid seq body hs hq hl fits)
        (rw (build_frame_lem sid seq body hl) at e) in
    (r.0, r.1)
