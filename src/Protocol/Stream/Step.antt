-- ===== src/Protocol/Stream/Step.antt =====
-- internal/protocol/stream.go: what one call of `NextRef` takes from the stream.
use t2d.Base.{
  ℕ, ◌+◌, ◌≤◌, ◌<◌, ◌≡◌, ap, ◌∙◌, sym, Bool, false, List, [], ◌++◌, arith, length, take, drop, ◌&&◌,
  length-drop, length-append, drop_all, drop-drop, take-append_length, drop-append_length,
  take-append_le, append-nil, append_assoc, ok,
}
use native.Mathlib.Decide.{dec_lt}
use t2d.Base.Int.{ℤ, pos, ltb_ℤ}
use t2d.Protocol.Packet.{PacketHeader, IsHeader, header_size, marshal, unmarshal}
use t2d.Protocol.Packet.Layout.{length-marshal}
use t2d.Protocol.Packet.RoundTrip.{unmarshal-marshal}
use t2d.Protocol.Packet.Validation.{IsAccepted, validate_iff}
use t2d.Protocol.Stream.{
  StreamBuffer, Frame, Next, found, incomplete, take_frame, check_header, next_ref,
}
use t2d.Protocol.Stream.View.{unread, IsValid, len_lem}

-- The limit that `NextRef` sets on a payload; none if `maxPayload` is not positive.
abbrev pub too_large : ℤ → ℕ → Bool
too_large max_payload n = ltb_ℤ (pos 0) max_payload && ltb_ℤ max_payload (pos n)

-- A frame that may stand on the stream: a header of the protocol, and the payload it announces.
pub record IsFrame (max_payload : ℤ) (f : Frame) : Type 0 where
  pub in_range : IsHeader f.header
  pub accepted : IsAccepted f.header
  pub fits : too_large max_payload f.header.length ≡ false
  pub whole : length f.payload ≡ f.header.length

abbrev pub frame_bytes : Frame → List ℕ
frame_bytes f = marshal f.header ++ f.payload

-- The state and the frame when `total` bytes are there.
module _ {b : StreamBuffer} (v : IsValid b) (h : PacketHeader) where
  -- What a successful `take_frame` leaves and returns.
  pub record Takes (r : StreamBuffer × Next) : Type 0 where
    pub result :
        r.1 ≡ found (record { header = h; payload = take h.length (drop header_size (unread b)) })
    pub rest : unread r.0 ≡ drop (header_size + h.length) (unread b)
    pub valid : IsValid r.0
    pub limit : r.0.max_payload ≡ b.max_payload

  pub take_frame-Takes : header_size + h.length ≤ length (unread b) → Takes (take_frame b h)
  unfolding take_frame
  take_frame-Takes enough = ground (
    arith,
    len_lem b,
    length-drop b.off b.buf,
    drop-drop b.off header_size b.buf,
    drop-drop b.off (header_size + h.length) b.buf,
    drop_all (header_size + h.length) (unread b),
  )

  pub take_frame-short :
      length (unread b) < header_size + h.length → take_frame b h ≡ (b, incomplete)
  unfolding take_frame
  take_frame-short few = ground (arith, len_lem b)

-- `NextRef` once the 20 bytes of a good header are there.
next_ref_header :
    (b : StreamBuffer) {h : PacketHeader}
    → header_size ≤ length (unread b)
    → take header_size (unread b) ≡ marshal h
    → IsHeader h
    → IsAccepted h
    → too_large b.max_payload h.length ≡ false
    → next_ref b ≡ take_frame b h
unfolding next_ref check_header
next_ref_header b {h} long same r a fits = ground (arith, len_lem b, readable, (validate_iff h).1 a)
  where
    readable : unmarshal (take header_size (unread b)) ≡ ok h
    readable = rw (same, ← append-nil (marshal h)) (unmarshal-marshal [] r)

pub length-frame_bytes :
    {m : ℤ} {f : Frame} → IsFrame m f → length (frame_bytes f) ≡ header_size + f.header.length
length-frame_bytes {f = f} g =
    omega (arith, length-append (marshal f.header) f.payload, length-marshal f.header, g.whole)

-- The first 20 bytes of a stream that goes on as a frame does.
take-frame_bytes :
    (u more : List ℕ) (f : Frame) (rest : List ℕ)
    → header_size ≤ length u
    → u ++ more ≡ frame_bytes f ++ rest
    → take header_size u ≡ marshal f.header
take-frame_bytes u more f rest long e =
    sym (take-append_le u more header_size long)
    ∙ ap (take header_size) (e ∙ append_assoc (marshal f.header) f.payload rest)
    ∙ take-append_length (marshal f.header) (f.payload ++ rest) header_size
        (sym (length-marshal f.header))

take-drop-frame_bytes :
    {m : ℤ} {f : Frame} (rest : List ℕ)
    → IsFrame m f
    → take f.header.length (drop header_size (frame_bytes f ++ rest)) ≡ f.payload
take-drop-frame_bytes {f = f} rest g =
    rw
      (
        append_assoc (marshal f.header) f.payload rest,
        drop-append_length (marshal f.header) (f.payload ++ rest) header_size
            (sym (length-marshal f.header)),
      )
      (take-append_length f.payload rest f.header.length (sym g.whole))

-- With a whole frame at its head the stream gives that frame, and goes on behind it.
pub next_ref-found :
    {b : StreamBuffer} (f : Frame) (rest : List ℕ)
    → IsValid b
    → IsFrame b.max_payload f
    → unread b ≡ frame_bytes f ++ rest
    → ((next_ref b).1 ≡ found f)
      × (unread (next_ref b).0 ≡ rest)
      × IsValid (next_ref b).0
      × ((next_ref b).0.max_payload ≡ b.max_payload)
next_ref-found {b} f rest v g e = rw step (
  taken.result
      ∙ ap (λ (p : List ℕ). found (record { header = f.header; payload = p }))
          (ap (λ (u : List ℕ). take f.header.length (drop header_size u)) e
            ∙ take-drop-frame_bytes rest g),
  taken.rest
      ∙ ap (drop (header_size + f.header.length)) e
      ∙ drop-append_length (frame_bytes f) rest (header_size + f.header.length)
          (sym (length-frame_bytes g)),
  taken.valid,
  taken.limit,
)
  where
    enough : header_size + f.header.length ≤ length (unread b)
    enough = omega (arith, ap length e, length-append (frame_bytes f) rest, length-frame_bytes g)

    step : next_ref b ≡ take_frame b f.header
    step =
        next_ref_header b (omega (arith, enough))
          (take-frame_bytes (unread b) [] f rest (omega (arith, enough))
            (append-nil (unread b) ∙ e))
          g.in_range g.accepted g.fits

    taken : Takes v f.header (take_frame b f.header)
    taken = take_frame-Takes v f.header enough

pub next_ref_few :
    (b : StreamBuffer) → length (unread b) < header_size → next_ref b ≡ (b, incomplete)
unfolding next_ref
next_ref_few b few = ground (arith, len_lem b)

-- With a proper part of a frame it waits, and nothing changes.
pub next_ref-incomplete :
    {b : StreamBuffer} (f : Frame) (more rest : List ℕ)
    → IsValid b
    → IsFrame b.max_payload f
    → unread b ++ more ≡ frame_bytes f ++ rest
    → length (unread b) < length (frame_bytes f)
    → next_ref b ≡ (b, incomplete)
next_ref-incomplete {b} f more rest v g e short = elim (dec_lt (length (unread b)) header_size) [
  | yes few ↦ next_ref_few b few
  | no long ↦
      next_ref_header b (omega arith) (take-frame_bytes (unread b) more f rest (omega arith) e)
        g.in_range g.accepted g.fits
      ∙ take_frame-short v f.header (omega (arith, length-frame_bytes g))
]
