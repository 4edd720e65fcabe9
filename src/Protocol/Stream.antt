-- ===== src/Protocol/Stream.antt =====
-- internal/protocol/stream.go: StreamBuffer, which cuts frames out of a TCP byte stream.
pub mod View
pub mod Step
pub mod Cases
pub mod Sound
pub mod Carries
pub mod DataFrame
use t2d.Base.{
  ℕ, ◌+◌, ◌-◌, List, [], ◌++◌, Bool, ◌&&◌, length, take, drop, replicate, copy, ltb, leb, ◌==◌,
  if◌then◌else◌, ok, err,
}
use t2d.Base.Int.{ℤ, pos, pos_part, ltb_ℤ}
use t2d.Protocol.Error.{ProtocolError, payload_too_large}
use t2d.Protocol.Packet.{PacketHeader, header_size, unmarshal, validate}

pub record Frame : Type 0 where
  pub header : PacketHeader
  pub payload : List ℕ

-- `buf` is the slice's elements and `cap` its capacity; `off` is the first byte not yet read.
pub record StreamBuffer : Type 0 where
  pub buf : List ℕ
  pub off : ℕ
  pub cap : ℕ
  pub max_payload : ℤ

pub new_stream_buffer : ℤ → ℤ → StreamBuffer
new_stream_buffer capacity max_payload = record {
  buf = [];
  off = 0;
  cap = if ltb_ℤ capacity (pos header_size) then header_size else pos_part capacity;
  max_payload = max_payload;
}

-- `copy(b.buf, b.buf[b.off:])`, then the slice is cut to the bytes that were moved.
pub compact : StreamBuffer → StreamBuffer
compact b = record b { buf = take (length b.buf - b.off) (copy b.buf (drop b.off b.buf)); off = 0 }

-- The capacity that `append` picks for a slice that is full is the Go runtime's choice:
-- `grow old needed`.
module _ (grow : ℕ → ℕ → ℕ) where
  pub append_cap : ℕ → ℕ → ℕ
  append_cap old needed = if leb needed old then old else grow old needed

  pub append_bytes : StreamBuffer → List ℕ → StreamBuffer
  unfolding append_cap
  append_bytes b p = record b { buf = b.buf ++ p; cap = append_cap b.cap (length b.buf + length p) }

  -- `Write`
  pub write : StreamBuffer → List ℕ → StreamBuffer
  write b p =
      append_bytes (if ltb 0 b.off && ltb b.cap (length b.buf + length p) then compact b else b) p

-- `Len`; the invariant keeps `off` within the slice.
pub len : StreamBuffer → ℕ
len b = length b.buf - b.off

unfoldable pub reset : StreamBuffer → StreamBuffer
reset b = record b { buf = []; off = 0 }

-- `(frame, true, nil)`, `(Frame{}, false, nil)` and `(Frame{}, false, err)`.
pub data Next : Type 0 where
  found : Frame → Next
  incomplete : Next
  invalid : ProtocolError → Next

-- From `totalLen := HeaderSize + int(header.Length)` on.
pub take_frame : StreamBuffer → PacketHeader → StreamBuffer × Next
unfolding len reset
take_frame b header =
    let total_len = header_size + header.length in
    if ltb (len b) total_len
    then (b, incomplete)
    else let moved = record b { off = b.off + total_len } in
      (
        if moved.off == length moved.buf then reset moved else moved,
        found (record {
          header = header;
          payload = take header.length (drop (b.off + header_size) b.buf);
        }),
      )

-- The checks of a header that was read.
pub check_header : StreamBuffer → PacketHeader → StreamBuffer × Next
check_header b header = elim (validate header) [
  | err e ↦ (b, invalid e)
  | ok _ ↦
      if ltb_ℤ (pos 0) b.max_payload && ltb_ℤ b.max_payload (pos header.length)
      then (b, invalid (payload_too_large header.length b.max_payload))
      else take_frame b header
]

pub next_ref : StreamBuffer → StreamBuffer × Next
next_ref b =
    if ltb (len b) header_size
    then (b, incomplete)
    else elim (unmarshal (take header_size (drop b.off b.buf))) [
      | err e ↦ (b, invalid e)
      | ok header ↦ check_header b header
    ]

own_payload : Next → Next
own_payload (found f) =
    found (record f { payload = copy (replicate (length f.payload) 0) f.payload })
own_payload incomplete = incomplete
own_payload (invalid e) = invalid e

-- `Next`: as `NextRef`, with the payload copied into a slice of its own.
pub next : StreamBuffer → StreamBuffer × Next
unfolding own_payload
next b = let (b', r) = next_ref b in (b', own_payload r)
