-- ===== src/Protocol/Control/Layout.antt =====
-- internal/protocol/control.go: what `Marshal` writes, and when it refuses.
use t2d.Base.{
  ℕ, zero, suc, ◌+◌, ◌*◌, ◌%◌, ◌^◌, ◌<◌, ◌≡◌, refl, sym, ap, ◌∙◌, ◌↔◌, List, [], ◌∷◌, ◌++◌, some,
  arith, length, replicate, copy, copy_at, append_assoc, length-append, put_uint32, uint16_bytes,
  uint32_bytes, ok,
}
use t2d.Protocol.Control.{LaneControlPayload, put_session_ids, encode, marshal}

abbrev pub session_id_bytes : List ℕ → List ℕ
session_id_bytes [] = []
session_id_bytes (sid ∷ sids) = uint32_bytes sid ++ session_id_bytes sids

pub length-session_id_bytes : (sids : List ℕ) → length (session_id_bytes sids) ≡ length sids * 4
length-session_id_bytes [] = omega arith
length-session_id_bytes (sid ∷ sids) = omega (arith, length-session_id_bytes sids)

-- The wire format: subtype, a reserved zero byte, lane, lane count, number of ids, ids.
abbrev pub control_bytes : LaneControlPayload → List ℕ
control_bytes p =
    p.subtype ∷ 0 ∷ uint16_bytes p.lane_id
    ++ (uint16_bytes p.lane_count
        ++ (uint16_bytes (length p.session_ids % 2 ^ 16) ++ session_id_bytes p.session_ids))

copy_at-append :
    (pre rest src : List ℕ) (off : ℕ)
    → off ≡ length pre
    → copy_at off (pre ++ rest) src ≡ pre ++ copy rest src
copy_at-append [] rest src zero e = refl
copy_at-append [] rest src (suc off) e = absurd (omega arith)
copy_at-append (p ∷ pre) rest src zero e = absurd (omega arith)
copy_at-append (p ∷ pre) rest src (suc off) e =
    ap (◌∷◌ p) (copy_at-append pre rest src off (omega arith))

replicate-four : (n : ℕ) → replicate {A = ℕ} (suc n * 4) 0 ≡ 0 ∷ 0 ∷ 0 ∷ 0 ∷ replicate (n * 4) 0
replicate-four n = let e : suc n * 4 ≡ suc (suc (suc (suc (n * 4)))) = omega arith in rw e

put_session_ids_lem :
    (sids pre : List ℕ) (off : ℕ)
    → off ≡ length pre
    → put_session_ids sids off (pre ++ replicate (length sids * 4) 0) ≡ pre ++ session_id_bytes sids
unfolding put_session_ids
put_session_ids_lem [] pre off e = refl
put_session_ids_lem (sid ∷ sids) pre off e =
    ap (put_session_ids sids (off + 4)) written
    ∙ put_session_ids_lem sids (pre ++ uint32_bytes sid) (off + 4)
        (omega (arith, length-append pre (uint32_bytes sid)))
    ∙ append_assoc pre (uint32_bytes sid) (session_id_bytes sids)
  where
    zeros : List ℕ
    zeros = replicate (length sids * 4) 0

    written :
        put_uint32 off sid (pre ++ replicate (length (sid ∷ sids) * 4) 0)
        ≡ (pre ++ uint32_bytes sid) ++ zeros
    written =
        ap (λ (r : List ℕ). put_uint32 off sid (pre ++ r)) (replicate-four (length sids))
        ∙ copy_at-append pre (0 ∷ 0 ∷ 0 ∷ 0 ∷ zeros) (uint32_bytes sid) off e
        ∙ sym (append_assoc pre (uint32_bytes sid) zeros)

replicate-eight : (n : ℕ) → replicate {A = ℕ} (8 + n) 0 ≡ replicate 8 0 ++ replicate n 0
replicate-eight n =
    let e : 8 + n ≡ suc (suc (suc (suc (suc (suc (suc (suc n))))))) = omega arith in rw e

-- Behind its checks `Marshal` writes the wire format.
pub encode_lem : (p : LaneControlPayload) → encode p ≡ control_bytes p
unfolding encode
encode_lem p = rw (replicate-eight (length p.session_ids * 4)) (
    put_session_ids_lem p.session_ids
      (p.subtype ∷ 0 ∷ uint16_bytes p.lane_id
        ++ (uint16_bytes p.lane_count ++ uint16_bytes (length p.session_ids % 2 ^ 16)))
      8 (omega arith))

-- `Marshal` refuses exactly a lane count of 0, a lane that is none of the count, and more session
-- ids than 16 bits count; else it returns the wire format.
pub marshal_iff :
    (p : LaneControlPayload) (bytes : List ℕ)
    → (marshal (some p) ≡ ok bytes) ↔ (
        (0 < p.lane_count)
        × (p.lane_id < p.lane_count)
        × (length p.session_ids < 2 ^ 16)
        × (bytes ≡ control_bytes p))
unfolding marshal
marshal_iff p bytes = (λ e. ground (arith, encode_lem p), λ h. ground (arith, encode_lem p))

-- A payload takes 8 bytes and 4 for each id.
pub length-control_bytes :
    (p : LaneControlPayload) → length (control_bytes p) ≡ 8 + length p.session_ids * 4
length-control_bytes p = omega (arith, length-session_id_bytes p.session_ids)
