-- ===== src/Protocol/Packet/Assembly.antt =====
-- internal/client/client.go, sendLaneControl, and internal/server/server.go, sendToDownstream: both
-- build a packet in a fresh slice by `make`, `MarshalTo` and `copy`.
use t2d.Base.{
  ℕ, zero, suc, ◌+◌, ◌≡◌, refl, ap, sym, List, ◌∷◌, ◌++◌, arith, length, take, drop, replicate,
  copy, copy_same, length-replicate,
}
use t2d.Protocol.Packet.{PacketHeader, header_size, marshal_to, marshal}

-- `frame := make([]byte, HeaderSize+len(payload))`, `header.MarshalTo(frame[:HeaderSize])` and
-- `copy(frame[HeaderSize:], payload)`
unfoldable pub assemble : PacketHeader → List ℕ → List ℕ
assemble header payload =
    let frame = replicate (header_size + length payload) 0 in
    marshal_to header (take header_size frame) ++ copy (drop header_size frame) payload

take-replicate : (m n : ℕ) → take {A = ℕ} m (replicate (m + n) 0) ≡ replicate m 0
take-replicate zero n = refl
take-replicate (suc m) n =
    let step : suc m + n ≡ suc (m + n) = omega arith in rw step (ap (◌∷◌ 0) (take-replicate m n))

drop-replicate : (m n : ℕ) → drop {A = ℕ} m (replicate (m + n) 0) ≡ replicate n 0
drop-replicate zero n = let step : 0 + n ≡ n = omega arith in rw step refl
drop-replicate (suc m) n =
    let step : suc m + n ≡ suc (m + n) = omega arith in rw step (drop-replicate m n)

-- The slice is the header's bytes and then the payload's.
pub assemble_lem :
    (header : PacketHeader) (payload : List ℕ) → assemble header payload ≡ marshal header ++ payload
unfolding assemble marshal
assemble_lem header payload =
    rw (take-replicate header_size (length payload), drop-replicate header_size (length payload))
      (ap (λ (x : List ℕ). marshal_to header (replicate header_size 0) ++ x)
        (copy_same (replicate (length payload) 0) payload
          (sym (length-replicate (length payload) 0))))
