-- ===== src/Protocol/Control/RoundTrip.antt =====
-- internal/protocol/control.go: `Marshal` and `UnmarshalLaneControl` undo one another.
use t2d.Base.{
  ℕ, zero, suc, ◌+◌, ◌*◌, ◌%◌, ◌^◌, ◌≤◌, ◌<◌, ◌≡◌, refl, sym, ap, ap₂, ◌∙◌, List, [], ◌∷◌, ◌++◌,
  some, arith, length, drop, set, by_cells, OnCells, drop-drop, length_zero, All, IsU32, IsBytes,
  uint32, uint16-bytes, uint32-bytes, uint16_bytes-uint16, uint32_bytes-uint32, uint32_lt, ok,
}
use t2d.Protocol.Control.{
  LaneControlPayload, IsControl, marshal, read_session_ids, unmarshal_lane_control,
}
use t2d.Protocol.Control.Layout.{
  session_id_bytes, control_bytes, marshal_iff, length-session_id_bytes,
}

-- The loop reads the ids that stand from `off` on.
read_session_ids_lem :
    (sids payload : List ℕ) (off : ℕ)
    → All IsU32 sids
    → drop off payload ≡ session_id_bytes sids
    → read_session_ids (length sids) off payload ≡ sids
unfolding read_session_ids
read_session_ids_lem [] payload off v e = refl
read_session_ids_lem (sid ∷ sids) payload off v e = ap₂ ◌∷◌ (ap uint32 e ∙ uint32-bytes sid v.0) (
    read_session_ids_lem sids payload (off + 4) v.1 (sym (drop-drop off 4 payload) ∙ ap (drop 4) e))

unmarshal-control_bytes :
    (p : LaneControlPayload)
    → IsControl p
    → p.lane_id < p.lane_count
    → length p.session_ids < 2 ^ 16
    → unmarshal_lane_control (control_bytes p) ≡ ok p
unfolding unmarshal_lane_control
unmarshal-control_bytes p v lane few = ground (
  arith,
  length-session_id_bytes p.session_ids,
  uint16-bytes p.lane_id,
  uint16-bytes p.lane_count,
  uint16-bytes (length p.session_ids % 2 ^ 16),
  read_session_ids_lem p.session_ids (control_bytes p) 8 v.session_ids_u32 refl,
)

-- What `Marshal` returns, `UnmarshalLaneControl` reads back.
pub unmarshal_lane_control-marshal :
    {p : LaneControlPayload} {bytes : List ℕ}
    → IsControl p
    → marshal (some p) ≡ ok bytes
    → unmarshal_lane_control bytes ≡ ok p
unmarshal_lane_control-marshal {p} {bytes} v e =
    let (_, lane, few, wire) = (marshal_iff p bytes).0 e in
    rw wire (unmarshal-control_bytes p v lane few)

-- The ids that `n` groups of four bytes hold.
abbrev ids_of : ℕ → List ℕ → List ℕ
ids_of zero d = []
ids_of (suc n) d = uint32 d ∷ ids_of n (drop 4 d)

read-ids_of :
    (n off : ℕ) (payload : List ℕ) → read_session_ids n off payload ≡ ids_of n (drop off payload)
unfolding read_session_ids
read-ids_of zero off payload = refl
read-ids_of (suc n) off payload =
    ap (◌∷◌ (uint32 (drop off payload)))
      (read-ids_of n (off + 4) payload ∙ ap (ids_of n) (sym (drop-drop off 4 payload)))

-- Reading the ids of a byte string of the right length loses nothing.
record ReadsAll (n : ℕ) (d : List ℕ) : Type 0 where
  count : length (ids_of n d) ≡ n
  in_range : All IsU32 (ids_of n d)
  same : session_id_bytes (ids_of n d) ≡ d

ids_of-ReadsAll : (n : ℕ) (d : List ℕ) → IsBytes d → length d ≡ n * 4 → ReadsAll n d
ids_of-ReadsAll zero d v e = record {
  count = refl;
  in_range = tt;
  same = sym (length_zero d (omega arith));
}
ids_of-ReadsAll (suc n) (a ∷ b ∷ c ∷ f ∷ d) v e =
    let rest = ids_of-ReadsAll n d v.1.1.1.1 (omega arith) in
    record {
      count = ap suc rest.count;
      in_range = (uint32_lt a b c f v.0 v.1.0 v.1.1.0 v.1.1.1.0, rest.in_range);
      same = ap₂ ◌++◌ (uint32_bytes-uint32 a b c f v.0 v.1.0 v.1.1.0 v.1.1.1.0) rest.same;
    }
ids_of-ReadsAll (suc n) (a ∷ b ∷ c ∷ []) v e = absurd (omega arith)
ids_of-ReadsAll (suc n) (a ∷ b ∷ []) v e = absurd (omega arith)
ids_of-ReadsAll (suc n) (a ∷ []) v e = absurd (omega arith)
ids_of-ReadsAll (suc n) [] v e = absurd (omega arith)

-- What an accepted payload says: its fields are in range, and they marshal to the payload with the
-- reserved byte cleared.
record Decodes (payload : List ℕ) (p : LaneControlPayload) : Type 0 where
  in_range : IsControl p
  lane : p.lane_id < p.lane_count
  few : length p.session_ids < 2 ^ 16
  same_bytes : control_bytes p ≡ set payload 1 0

from_cells : OnCells 8 λ payload.
    IsBytes payload
    → (p : LaneControlPayload) → unmarshal_lane_control payload ≡ ok p
    → Decodes payload p
unfolding unmarshal_lane_control
from_cells a b c d e f g h rest v p q = ground (
  arith,
  read-ids_of (g * 2 ^ 8 + h) 8 (a ∷ b ∷ c ∷ d ∷ e ∷ f ∷ g ∷ h ∷ rest),
  ids_of-ReadsAll (g * 2 ^ 8 + h) rest,
  uint16_bytes-uint16 c d,
  uint16_bytes-uint16 e f,
  uint16_bytes-uint16 g h,
)

unmarshal-ok-length :
    (payload : List ℕ) {p : LaneControlPayload}
    → unmarshal_lane_control payload ≡ ok p
    → 8 ≤ length payload
unfolding unmarshal_lane_control
unmarshal-ok-length payload e = ground arith

-- What `UnmarshalLaneControl` accepts is in range, and `Marshal` gives the same bytes back but for
-- the reserved byte, which it clears.
pub marshal-unmarshal_lane_control :
    (payload : List ℕ) {p : LaneControlPayload}
    → IsBytes payload
    → unmarshal_lane_control payload ≡ ok p
    → IsControl p × (marshal (some p) ≡ ok (set payload 1 0))
marshal-unmarshal_lane_control payload {p} v e = (
  d.in_range,
  (marshal_iff p (set payload 1 0)).1 (omega (arith, d.lane), d.lane, d.few, sym d.same_bytes),
)
  where
    d : Decodes payload p
    d =
        by_cells 8
          (λ bs.
            IsBytes bs → (g : LaneControlPayload) → unmarshal_lane_control bs ≡ ok g → Decodes bs g)
          from_cells payload (unmarshal-ok-length payload e) v p e
