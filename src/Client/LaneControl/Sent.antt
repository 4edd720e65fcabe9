-- ===== src/Client/LaneControl/Sent.antt =====
-- internal/client/client.go, sendLaneControl: what is on the wire after it has written.
use t2d.Base.{
  ℕ, ◌+◌, ◌*◌, ◌%◌, ◌^◌, ◌≤◌, ◌<◌, ◌≡◌, ◌≢◌, ap, ◌∙◌, inl, inr, List, [], ◌∷◌, ◌++◌, Bool, some,
  arith, length, length-append, Bool-cases, Option-cases, ok, Result-cases,
}
use mathlib.Core.List.{append_cancel_left}
use t2d.Base.Int.{pos}
use t2d.Protocol.Packet.{PacketHeader, new_control_packet}
use t2d.Protocol.Packet.Assembly.{assemble, assemble_lem}
use t2d.Protocol.Packet.Validation.{new_control_packet-IsHeader, new_control_packet-IsAccepted}
use t2d.Protocol.Control.{LaneControlPayload, IsControl, marshal, new_control_packet_payload}
use t2d.Protocol.Control.Layout.{marshal_iff, length-control_bytes}
use t2d.Protocol.Stream.{Frame}
use t2d.Protocol.Stream.Step.{IsFrame, frame_bytes}
use t2d.Client.LaneControl.{ControlLoop, write_frame, lane_control, send_packet, send_lane_control}

-- The frame of a control payload that Marshal has written as these bytes.
abbrev pub control_frame : LaneControlPayload → List ℕ → Frame
control_frame ctrl payload = record {
  header = new_control_packet ctrl.lane_id (length payload % 2 ^ 32);
  payload = payload;
}

new_control_packet_payload-ok :
    (ctrl : LaneControlPayload) {r : PacketHeader × List ℕ}
    → new_control_packet_payload 0 (some ctrl) ≡ ok r
    → (payload : List ℕ) × (marshal (some ctrl) ≡ ok payload)
      × (r ≡ ((control_frame ctrl payload).header, payload))
unfolding new_control_packet_payload new_control_packet
new_control_packet_payload-ok ctrl {r} e = elim (Result-cases (marshal (some ctrl))) [
  | inl (x, bad) ↦ absurd (ground (arith, bad))
  | inr (payload, good) ↦ (payload, good, ground (arith, good))
]

nothing_sent : (xs : List (List ℕ)) (x : List ℕ) → xs ≢ xs ++ (x ∷ [])
nothing_sent xs x e = omega (arith, ap length e, length-append xs (x ∷ []))

module _ (writes : List (List ℕ) → List ℕ → Bool) (lane_count : ℕ) where
  write_frame-sent :
      (frame x : List ℕ) (s : ControlLoop)
      → (write_frame writes lane_count frame s).sent ≡ s.sent ++ (x ∷ [])
      → x ≡ frame
  unfolding write_frame
  write_frame-sent frame x s e = elim (Bool-cases (writes s.sent frame)) [
    | inl taken ↦
        let same : s.sent ++ (frame ∷ []) ≡ s.sent ++ (x ∷ []) = rw taken at e in
        let tails = append_cancel_left s.sent (frame ∷ []) (x ∷ []) same in cc
    | inr refused ↦ absurd (nothing_sent s.sent x (rw refused at e))
  ]

  send_packet-sent :
      (ctrl : LaneControlPayload) (x : List ℕ) (s : ControlLoop)
      → (send_packet writes lane_count (new_control_packet_payload 0 (some ctrl)) s).sent
        ≡ s.sent ++ (x ∷ [])
      → (payload : List ℕ) × (marshal (some ctrl) ≡ ok payload)
        × (x ≡ frame_bytes (control_frame ctrl payload))
  unfolding send_packet
  send_packet-sent ctrl x s e = elim (Result-cases (new_control_packet_payload 0 (some ctrl))) [
    | inl (bad, refused) ↦ absurd (nothing_sent s.sent x (rw refused at e))
    | inr ((header, body), built) ↦
        let (payload, good, parts) = new_control_packet_payload-ok ctrl built in
        let same : x ≡ assemble header body =
          write_frame-sent (assemble header body) x s (rw built at e) in
        (
          payload,
          good,
          same
              ∙ ap (λ (r : PacketHeader × List ℕ). assemble r.0 r.1) parts
              ∙ assemble_lem (control_frame ctrl payload).header payload,
        )
  ]

  -- A frame that sendLaneControl has written is the one of the lane's control payload.
  pub send_lane_control-sent :
      (subtype : ℕ) (ids x : List ℕ) (s : ControlLoop)
      → (send_lane_control writes lane_count subtype ids s).sent ≡ s.sent ++ (x ∷ [])
      → let ctrl = lane_control writes lane_count subtype ids s.lane in
        (payload : List ℕ) × (marshal (some ctrl) ≡ ok payload)
        × (x ≡ frame_bytes (control_frame ctrl payload))
  unfolding send_lane_control
  send_lane_control-sent subtype ids x s e = elim (Option-cases s.lane.conn) [
    | inl down ↦ absurd (nothing_sent s.sent x (rw (down, send_lane_control) at e))
    | inr (c, up) ↦
        send_packet-sent (lane_control writes lane_count subtype ids s.lane) x s
          (rw (up, send_lane_control) at e)
  ]

-- Such a frame passes the checks of a reader that allows its length.
pub control_frame-IsFrame :
    (ctrl : LaneControlPayload) (payload : List ℕ) (limit : ℕ)
    → IsControl ctrl
    → marshal (some ctrl) ≡ ok payload
    → 8 + length ctrl.session_ids * 4 ≤ limit
    → limit < 2 ^ 32
    → IsFrame (pos limit) (control_frame ctrl payload)
unfolding new_control_packet
control_frame-IsFrame ctrl payload limit v good fits small =
    let (_, _, _, wire) = (marshal_iff ctrl payload).0 good in
    let size : length payload ≡ 8 + length ctrl.session_ids * 4 =
      omega (arith, ap length wire, length-control_bytes ctrl) in
    let n = length payload % 2 ^ 32 in
    record {
      in_range =
          new_control_packet-IsHeader ctrl.lane_id n (omega (arith, v.lane_id_u16)) (omega arith);
      accepted = new_control_packet-IsAccepted ctrl.lane_id n;
      fits = ground (arith, size);
      whole = omega (arith, size);
    }
