-- ===== src/Protocol/Stream/DataFrame.antt =====
-- internal/client/client.go, sendToUpstream, and internal/server/server.go, sendToDownstream: the frame
-- that both build of a body.
use t2d.Base.{◌∙◌, ap, ℕ, ◌%◌, ◌^◌, suc, ◌≤◌, ◌≡◌, ◌<◌, refl, List, false, length, arith, IsU32}
use t2d.Base.Int.{ℤ, pos}
use t2d.Protocol.Packet.{new_data_packet}
use t2d.Protocol.Packet.Assembly.{assemble, assemble_lem}
use t2d.Protocol.Packet.Validation.{new_data_packet-IsHeader, new_data_packet-IsAccepted}
use t2d.Protocol.Stream.{Frame}
use t2d.Protocol.Stream.Step.{IsFrame, frame_bytes, too_large}

pub within : (limit n : ℕ) → n ≤ suc limit → too_large (pos (suc limit)) n ≡ false
within limit n h = ground arith

abbrev pub data_frame : ℕ → ℕ → List ℕ → Frame
data_frame sid seq body = record { header = new_data_packet sid seq (length body); payload = body }

pub data_frame_lem :
    (sid seq : ℕ) (body : List ℕ)
    → length body < 2 ^ 32
    → assemble (new_data_packet sid seq (length body % 2 ^ 32)) body
      ≡ frame_bytes (data_frame sid seq body)
data_frame_lem sid seq body h =
    let small : length body % 2 ^ 32 ≡ length body = omega arith in
    ap (λ (n : ℕ). assemble (new_data_packet sid seq n) body) small
    ∙ assemble_lem (new_data_packet sid seq (length body)) body

pub data_frame-IsFrame :
    (limit : ℤ) (sid seq : ℕ) (body : List ℕ)
    → IsU32 sid
    → IsU32 seq
    → length body < 2 ^ 32
    → too_large limit (length body) ≡ false
    → IsFrame limit (data_frame sid seq body)
unfolding new_data_packet
data_frame-IsFrame limit sid seq body hs hq hl fits = record {
  in_range = new_data_packet-IsHeader sid seq (length body) hs hq hl;
  accepted = new_data_packet-IsAccepted sid seq (length body);
  fits = fits;
  whole = refl;
}
