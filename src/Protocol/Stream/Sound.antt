-- ===== src/Protocol/Stream/Sound.antt =====
-- internal/protocol/stream.go: every frame that `NextRef` returns stood on the stream.
use t2d.Base.{
  ℕ, ◌+◌, ◌≤◌, ◌≡◌, refl, ap, ◌∙◌, sym, ◌⊎◌, inl, inr, true, false, List, ◌++◌, arith, length, take,
  drop, length-drop, length-take, take-append-drop, append_assoc, IsBytes, All-take, Result, ok,
  err, replicate, copy_same, length-replicate, drop-drop, take_all,
}
use t2d.Protocol.Error.{ProtocolError, payload_too_large}
use t2d.Protocol.Packet.{PacketHeader, IsHeader, header_size, marshal, unmarshal, validate}
use t2d.Protocol.Packet.RoundTrip.{marshal-unmarshal}
use t2d.Protocol.Packet.Validation.{validate_iff}
use t2d.Protocol.Stream.{
  StreamBuffer, Frame, Next, found, incomplete, invalid, take_frame, check_header, next_ref, next,
  own_payload,
}
use t2d.Protocol.Stream.View.{unread, IsValid, len_lem}
use t2d.Protocol.Stream.Step.{IsFrame, frame_bytes, too_large, Takes, take_frame-Takes}

-- The checks that a returned frame has passed.
record Passed (b : StreamBuffer) (h : PacketHeader) : Type 0 where
  long : header_size ≤ length (unread b)
  read : unmarshal (take header_size (unread b)) ≡ ok h
  valid : validate h ≡ ok tt
  fits : too_large b.max_payload h.length ≡ false
  whole : header_size + h.length ≤ length (unread b)
  step : next_ref b ≡ take_frame b h

header_of_take_frame :
    (b : StreamBuffer) (h : PacketHeader) {f : Frame}
    → (take_frame b h).1 ≡ found f
    → (f.header ≡ h) × (header_size + h.length ≤ length (unread b))
unfolding take_frame
header_of_take_frame b h e = ground (arith, len_lem b)

Passed-of_check :
    (b : StreamBuffer) (h : PacketHeader) {f : Frame}
    → header_size ≤ length (unread b)
    → unmarshal (take header_size (unread b)) ≡ ok h
    → (check_header b h).1 ≡ found f
    → Passed b f.header
unfolding check_header next_ref
Passed-of_check b h {f} long read e = ground (arith, header_of_take_frame b h {f = f}, len_lem b)

pub next_ref_read :
    (b : StreamBuffer) (h : PacketHeader)
    → header_size ≤ length (unread b)
    → unmarshal (take header_size (unread b)) ≡ ok h
    → next_ref b ≡ check_header b h
unfolding next_ref
next_ref_read b h long read = ground (arith, len_lem b)

found_readable :
    (b : StreamBuffer) {f : Frame}
    → (next_ref b).1 ≡ found f
    → (h : PacketHeader) × (header_size ≤ length (unread b))
      × (unmarshal (take header_size (unread b)) ≡ ok h)
unfolding next_ref
found_readable b e = go (unmarshal (take header_size (unread b))) refl
  where
    go :
        (r : Result ProtocolError PacketHeader)
        → unmarshal (take header_size (unread b)) ≡ r
        → (h : PacketHeader) × (header_size ≤ length (unread b))
          × (unmarshal (take header_size (unread b)) ≡ ok h)
    go (ok h) q = (h, ground (arith, len_lem b), q)
    go (err x) q = absurd (ground (arith, len_lem b))

Passed-of_found : (b : StreamBuffer) {f : Frame} → (next_ref b).1 ≡ found f → Passed b f.header
Passed-of_found b {f} e =
    let (h, long, read) = found_readable b e in
    Passed-of_check b h long read
      (ap (λ (r : StreamBuffer × Next). r.1) (sym (next_ref_read b h long read)) ∙ e)

-- A frame that `NextRef` returns is well formed and stood at the head of the stream, which goes on
-- right behind it: no byte is skipped, made up or read twice.
pub next_ref_sound :
    {b : StreamBuffer} {f : Frame}
    → IsValid b
    → IsBytes (unread b)
    → (next_ref b).1 ≡ found f
    → IsFrame b.max_payload f
      × (unread b ≡ frame_bytes f ++ unread (next_ref b).0)
      × IsValid (next_ref b).0
next_ref_sound {b} {f} v bytes e = (
  record {
    in_range = decoded.1;
    accepted = (validate_iff f.header).0 p.valid;
    fits = p.fits;
    whole =
        ap length payload
        ∙ omega (
          arith,
          p.whole,
          length-drop header_size (unread b),
          length-take f.header.length (drop header_size (unread b)),
        );
  },
  whole_stream,
  rw (p.step) taken.valid,
)
  where
    p : Passed b f.header
    p = Passed-of_found b e

    decoded :
        (header_size ≤ length (take header_size (unread b)))
        × IsHeader f.header
        × (marshal f.header ≡ take header_size (take header_size (unread b)))
    decoded =
        marshal-unmarshal (take header_size (unread b)) (All-take _ header_size (unread b) bytes)
          p.read

    taken : Takes v f.header (take_frame b f.header)
    taken = take_frame-Takes v f.header p.whole

    payload : f.payload ≡ take f.header.length (drop header_size (unread b))
    payload = cc (e, p.step, taken.result)

    head : marshal f.header ≡ take header_size (unread b)
    head =
        decoded.2
        ∙ take_all header_size (take header_size (unread b))
            (omega (arith, length-take header_size (unread b)))

    after : unread (next_ref b).0 ≡ drop f.header.length (drop header_size (unread b))
    after = rw p.step (taken.rest ∙ sym (drop-drop header_size f.header.length (unread b)))

    whole_stream : unread b ≡ frame_bytes f ++ unread (next_ref b).0
    whole_stream =
        rw (head, payload, after)
          (rw (
            append_assoc (take header_size (unread b))
                (take f.header.length (drop header_size (unread b))) _,
            take-append-drop f.header.length (drop header_size (unread b)),
            take-append-drop header_size (unread b),
          ))

-- A call that returns no frame, for want of bytes or with an error, leaves the buffer as it was.
pub next_ref_keeps :
    (b : StreamBuffer)
    → ((next_ref b).1 ≡ incomplete) ⊎ ((e : ProtocolError) × ((next_ref b).1 ≡ invalid e))
    → (next_ref b).0 ≡ b
unfolding next_ref check_header take_frame
next_ref_keeps b (inl q) = ground arith
next_ref_keeps b (inr (e, q)) = ground arith

own_payload_lem : (r : Next) → own_payload r ≡ r
unfolding own_payload
own_payload_lem (found f) =
    ap (λ (p : List ℕ). found (record { header = f.header; payload = p }))
      (copy_same (replicate (length f.payload) 0) f.payload
        (sym (length-replicate (length f.payload) 0)))
own_payload_lem incomplete = refl
own_payload_lem (invalid e) = refl

-- `Next` differs from `NextRef` in nothing but where the payload lies.
pub next_lem : (b : StreamBuffer) → next b ≡ next_ref b
unfolding next
next_lem b = ap (λ (r : Next). ((next_ref b).0, r)) (own_payload_lem (next_ref b).1)

-- A frame takes its 20 bytes at least from the stream.
pub next_ref_shrinks :
    {b : StreamBuffer} {f : Frame}
    → IsValid b
    → (next_ref b).1 ≡ found f
    → IsValid (next_ref b).0
      × (length (unread (next_ref b).0) + header_size ≤ length (unread b))
      × ((next_ref b).0.max_payload ≡ b.max_payload)
next_ref_shrinks {b} {f} v e =
    let p = Passed-of_found b e in
    let t = take_frame-Takes v f.header p.whole in
    rw (p.step) (
      t.valid,
      omega (
        arith,
        ap length t.rest,
        length-drop (header_size + f.header.length) (unread b),
        p.whole,
      ),
      t.limit,
    )

-- A header that `Validate` refuses, or that announces too long a payload, is reported as soon as
-- its 20 bytes are there.
pub next_ref-invalid :
    (b : StreamBuffer) (h : PacketHeader) (e : ProtocolError)
    → header_size ≤ length (unread b)
    → unmarshal (take header_size (unread b)) ≡ ok h
    → (validate h ≡ err e)
      ⊎ ((validate h ≡ ok tt)
          × (too_large b.max_payload h.length ≡ true)
          × (e ≡ payload_too_large h.length b.max_payload))
    → next_ref b ≡ (b, invalid e)
unfolding check_header
next_ref-invalid b h e long read (inl q) = rw (next_ref_read b h long read, q, check_header)
next_ref-invalid b h e long read (inr q) = rw (next_ref_read b h long read) (ground arith)
