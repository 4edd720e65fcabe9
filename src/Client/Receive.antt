-- ===== src/Client/Receive.antt =====
-- internal/client/client.go, handleDownstream: the loop that reads a downstream lane's TCP bytes,
-- cuts them into frames and hands the data frames on.
pub mod Framing
pub mod Errors
use t2d.Base.{ℕ, zero, suc, ◌+◌, List, [], ◌∷◌, Bool, true, false, ◌==◌, if◌then◌else◌, length}
use t2d.Protocol.Error.{ProtocolError}
use t2d.Protocol.Packet.{packet_type_control}
use t2d.Protocol.Stream.{
  StreamBuffer, Frame, Next, found, incomplete, invalid, reset, next_ref, write,
}

-- Why the inner loop stopped; `out_of_fuel` is the model's own.
pub data Stop : Type 0 where
  drained : Stop
  rejected : ProtocolError → Stop
  out_of_fuel : Stop

-- What the loop does to the rest of the client: `AddBytesReceived` for a chunk of so many bytes,
-- and `handleDownstreamPacket` for a frame.
pub record Sink (S : Type 0) : Type 0 where
  pub add_bytes_received : S → ℕ → S
  pub handle_packet : S → Frame → S

module _ {S : Type 0} (sink : Sink S) where
  -- `if frame.Header.Type == PacketTypeControl { continue }`, then `handleDownstreamPacket`.
  unfoldable pub dispatch : S → Frame → S
  dispatch s f = if f.header.type == packet_type_control then s else sink.handle_packet s f

  -- The inner `for`: frames until the bytes run out; after an error the buffer is reset.
  unfoldable pub drain : ℕ → StreamBuffer → S → StreamBuffer × S × Stop
  drain zero b s = (b, s, out_of_fuel)
  drain (suc fuel) b s =
      let (b', r) = next_ref b in
      elim r [
        | invalid e ↦ (reset b', s, rejected e)
        | incomplete ↦ (b', s, drained)
        | found f ↦ drain fuel b' (dispatch s f)
      ]

  module _ (grow : ℕ → ℕ → ℕ) where
    -- One round of the outer `for` on the bytes that `conn.Read` gave. A frame takes at least 20
    -- bytes, so the fuel is more than the number of rounds.
    pub receive : StreamBuffer × S → List ℕ → StreamBuffer × S
    receive (b, s) chunk =
        let b' = write grow b chunk in
        let s' = sink.add_bytes_received s (length chunk) in
        let (b'', s'', _) = drain (suc (length b'.buf)) b' s' in (b'', s'')

    pub receive_all : StreamBuffer × S → List (List ℕ) → StreamBuffer × S
    receive_all c [] = c
    receive_all c (chunk ∷ chunks) = receive_all (receive c chunk) chunks
