-- ===== src/Protocol/Stream/Cases.antt =====
-- internal/protocol/stream.go, NextRef: its branches, for those who compare another reader with it.
use t2d.Base.{◌≤◌, ◌≡◌, refl, true, false, arith, length, take, ok, err}
use t2d.Protocol.Error.{ProtocolError, payload_too_large}
use t2d.Protocol.Packet.{PacketHeader, header_size, unmarshal, validate}
use t2d.Protocol.Stream.{StreamBuffer, invalid, take_frame, check_header, next_ref}
use t2d.Protocol.Stream.View.{unread, len_lem}
use t2d.Protocol.Stream.Step.{too_large}

module _ (b : StreamBuffer) where
  pub next_ref-unreadable :
      (e : ProtocolError)
      → header_size ≤ length (unread b)
      → unmarshal (take header_size (unread b)) ≡ err e
      → next_ref b ≡ (b, invalid e)
  unfolding next_ref
  next_ref-unreadable e long bad = ground (arith, len_lem b)

  pub check_header-rejected :
      (h : PacketHeader) (e : ProtocolError)
      → validate h ≡ err e
      → check_header b h ≡ (b, invalid e)
  unfolding check_header
  check_header-rejected h e bad = rw (bad, check_header) refl

  pub check_header-too_large :
      (h : PacketHeader)
      → validate h ≡ ok tt
      → too_large b.max_payload h.length ≡ true
      → check_header b h ≡ (b, invalid (payload_too_large h.length b.max_payload))
  unfolding check_header
  check_header-too_large h good big = rw (good, big, check_header) refl

  pub check_header-take :
      (h : PacketHeader)
      → validate h ≡ ok tt
      → too_large b.max_payload h.length ≡ false
      → check_header b h ≡ take_frame b h
  unfolding check_header
  check_header-take h good small = rw (good, small, check_header) refl
