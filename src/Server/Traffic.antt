-- ===== src/Server/Traffic.antt =====
-- internal/server/handlers.go, OnTraffic of both handlers: frames are read through gnet's connection.
pub mod Round
pub mod Frames
pub mod Complete
pub mod Arrivals
pub mod Memory
mod Tests
use t2d.Base.{
  ℕ, zero, suc, ◌+◌, ◌*◌, ◌≤◌, ◌≡◌, List, Bool, true, false, not, Option, none, some, length, take,
  drop, ltb, ◌==◌, if◌then◌else◌, Result, ok, err,
}
use t2d.Base.Int.{ℤ, pos, ltb_ℤ}
use t2d.Protocol.Packet.{PacketHeader, header_size, unmarshal, validate, packet_type_control}
use t2d.Protocol.Control.{LaneControlPayload, unmarshal_lane_control}
use t2d.Server.Lanes.{Server, handle_lane_control}

-- The methods of `gnet.Conn` that OnTraffic calls; an error is a number.
pub record GnetConn (C : Type 0) : Type 0 where
  pub inbound_buffered : C → ℕ
  pub peek : ℕ → C → Result ℕ (List ℕ)
  pub discard : ℕ → C → C × Result ℕ ℕ
  pub next : ℕ → C → C × Result ℕ (List ℕ)

-- What their documentation promises, for the bytes that the connection has buffered: up to so many,
-- Peek shows them, Discard skips them, and Next hands them over. For 0 bytes, which OnTraffic asks for
-- where a payload is empty, the laws take this at its word: Next hands over none.
pub record IsGnetConn {C : Type 0} (g : GnetConn C) (inbound : C → List ℕ) : Type 0 where
  pub inbound_buffered_lem : (c : C) → g.inbound_buffered c ≡ length (inbound c)
  pub peek_lem : (n : ℕ) (c : C) → n ≤ length (inbound c) → g.peek n c ≡ ok (take n (inbound c))
  pub discard_ok : (n : ℕ) (c : C) → n ≤ length (inbound c) → (g.discard n c).1 ≡ ok n
  pub inbound-discard :
      (n : ℕ) (c : C) → n ≤ length (inbound c) → inbound (g.discard n c).0 ≡ drop n (inbound c)
  pub next_ok : (n : ℕ) (c : C) → n ≤ length (inbound c) → (g.next n c).1 ≡ ok (take n (inbound c))
  pub inbound-next :
      (n : ℕ) (c : C) → n ≤ length (inbound c) → inbound (g.next n c).0 ≡ drop n (inbound c)

-- How a round of the loop ends: `return` or `break`, or with a frame to handle.
pub data Outcome (C : Type 0) : Type 0 where
  leave : C → Outcome C
  frame : C → PacketHeader → List ℕ → Outcome C

module _ {C : Type 0} (g : GnetConn C) where
  -- `c.Discard(c.InboundBuffered()); return gnet.None`
  pub discard_all : C → Outcome C
  discard_all c = leave (g.discard (g.inbound_buffered c) c).0

  -- `c.Discard(HeaderSize)` and `c.Next(int(header.Length))`
  pub take_payload : PacketHeader → C → Outcome C
  take_payload header c =
      let (c', skipped) = g.discard header_size c in
      let (c'', body) = g.next header.length c' in
      elim skipped [
        | err e ↦ leave c'
        | ok n ↦ elim body [ err e ↦ leave c'' | ok payload ↦ frame c'' header payload ]
      ]

  -- From the checks of a header that was read on.
  pub check_frame : ℤ → PacketHeader → C → Outcome C
  unfolding discard_all take_payload
  check_frame limit header c = elim (validate header) [
    | err e ↦ discard_all c
    | ok _ ↦
        if ltb_ℤ limit (pos header.length)
        then discard_all c
        else if ltb (g.inbound_buffered c) (header_size + header.length)
        then leave c
        else take_payload header c
  ]

  pub round : ℤ → C → Outcome C
  unfolding discard_all check_frame
  round limit c =
      if ltb (g.inbound_buffered c) header_size then leave c else elim (g.peek header_size c) [
        | err e ↦ leave c
        | ok header_data ↦ elim (unmarshal header_data) [
          | err e ↦ discard_all c
          | ok header ↦ check_frame limit header c
        ]
      ]

  module _ {S : Type 0} (handle : S → PacketHeader → List ℕ → S) where
    -- The loop of OnTraffic. A frame takes at least 20 of the buffered bytes.
    pub read_frames : ℕ → ℤ → C → S → C × S
    read_frames zero limit c s = (c, s)
    read_frames (suc fuel) limit c s = elim (round limit c) [
      | leave c' ↦ (c', s)
      | frame c' header payload ↦ read_frames fuel limit c' (handle s header payload)
    ]

    pub on_traffic : ℤ → C → S → C × S
    unfolding read_frames
    on_traffic limit c s = read_frames (suc (g.inbound_buffered c)) limit c s

-- `maxDownstreamControlPayload`
abbrev pub max_downstream_control_payload : ℤ
max_downstream_control_payload = pos (64 * 1024)

-- What the OnTraffic of the downstream handler does with a frame of the connection `conn`.
unfoldable pub handle_control_frame : ℕ → Server → PacketHeader → List ℕ → Server
handle_control_frame conn s header payload =
    if not (header.type == packet_type_control) then s else elim (unmarshal_lane_control payload) [
      | err e ↦ s
      | ok ctrl ↦ handle_lane_control conn (some ctrl) s
    ]
