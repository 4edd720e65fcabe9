-- ===== src/Base/Words.antt =====
-- `encoding/binary.BigEndian` on byte strings, and the ranges of the unsigned types.
use Prim.Native.Nat.{ℕ, zero, suc, ◌+◌, ◌*◌, ◌/◌, ◌%◌, ◌^◌, ◌<◌}
use mathlib.Core.Path.{◌≡◌}
use mathlib.Core.List.{List, [], ◌∷◌}
use native.Mathlib.Omega.{arith}
use t2d.Base.Lists.{All, copy_at}

abbrev pub IsU8 : ℕ → Type 0
IsU8 b = b < 2 ^ 8

abbrev pub IsU16 : ℕ → Type 0
IsU16 v = v < 2 ^ 16

abbrev pub IsU32 : ℕ → Type 0
IsU32 v = v < 2 ^ 32

-- What the elements of a `[]byte` satisfy.
abbrev pub IsBytes : List ℕ → Type 0
IsBytes = All IsU8

-- The bytes that `PutUint16` and `PutUint32` store.
abbrev pub uint16_bytes : ℕ → List ℕ
uint16_bytes v = v / 2 ^ 8 % 2 ^ 8 ∷ v % 2 ^ 8 ∷ []

abbrev pub uint32_bytes : ℕ → List ℕ
uint32_bytes v = v / 2 ^ 24 % 2 ^ 8 ∷ v / 2 ^ 16 % 2 ^ 8 ∷ v / 2 ^ 8 % 2 ^ 8 ∷ v % 2 ^ 8 ∷ []

-- The values that `Uint16` and `Uint32` read; an index out of range panics, and is read as 0 here.
-- Every reader of the program has checked the length before.
abbrev pub uint16 : List ℕ → ℕ
uint16 (a ∷ b ∷ _) = a * 2 ^ 8 + b
uint16 _ = 0

abbrev pub uint32 : List ℕ → ℕ
uint32 (a ∷ b ∷ c ∷ d ∷ _) = a * 2 ^ 24 + b * 2 ^ 16 + c * 2 ^ 8 + d
uint32 _ = 0

abbrev pub byte_at : ℕ → List ℕ → ℕ
byte_at i [] = 0
byte_at zero (b ∷ _) = b
byte_at (suc i) (_ ∷ bs) = byte_at i bs

pub uint16-bytes : (v : ℕ) → IsU16 v → v / 2 ^ 8 % 2 ^ 8 * 2 ^ 8 + v % 2 ^ 8 ≡ v
uint16-bytes v h = omega arith

pub uint32-bytes :
    (v : ℕ)
    → IsU32 v
    → v / 2 ^ 24 % 2 ^ 8 * 2 ^ 24
        + v / 2 ^ 16 % 2 ^ 8 * 2 ^ 16
        + v / 2 ^ 8 % 2 ^ 8 * 2 ^ 8
        + v % 2 ^ 8
      ≡ v
uint32-bytes v h = omega arith

pub uint16_bytes-IsBytes : (v : ℕ) → IsBytes (uint16_bytes v)
uint16_bytes-IsBytes v = omega arith

pub uint32_bytes-IsBytes : (v : ℕ) → IsBytes (uint32_bytes v)
uint32_bytes-IsBytes v = omega arith

pub uint16_lt : (a b : ℕ) → IsU8 a → IsU8 b → IsU16 (a * 2 ^ 8 + b)
uint16_lt a b ha hb = omega arith

pub uint32_lt :
    (a b c d : ℕ)
    → IsU8 a
    → IsU8 b
    → IsU8 c
    → IsU8 d
    → IsU32 (a * 2 ^ 24 + b * 2 ^ 16 + c * 2 ^ 8 + d)
uint32_lt a b c d ha hb hc hd = omega arith

pub bytes-uint16 :
    (a b : ℕ)
    → IsU8 a
    → IsU8 b
    → ((a * 2 ^ 8 + b) / 2 ^ 8 % 2 ^ 8 ≡ a) × ((a * 2 ^ 8 + b) % 2 ^ 8 ≡ b)
bytes-uint16 a b ha hb = omega arith

pub uint32_bytes-uint32 :
    (a b c d : ℕ)
    → IsU8 a
    → IsU8 b
    → IsU8 c
    → IsU8 d
    → uint32_bytes (a * 2 ^ 24 + b * 2 ^ 16 + c * 2 ^ 8 + d) ≡ a ∷ b ∷ c ∷ d ∷ []
uint32_bytes-uint32 a b c d ha hb hc hd = ground arith

pub uint16_bytes-uint16 : (a b : ℕ) → IsU8 a → IsU8 b → uint16_bytes (a * 2 ^ 8 + b) ≡ a ∷ b ∷ []
uint16_bytes-uint16 a b ha hb = ground arith

-- `binary.BigEndian.PutUint16(buf[off:off+2], v)` and `PutUint32(buf[off:off+4], v)`
abbrev pub put_uint16 : ℕ → ℕ → List ℕ → List ℕ
put_uint16 off v buf = copy_at off buf (uint16_bytes v)

abbrev pub put_uint32 : ℕ → ℕ → List ℕ → List ℕ
put_uint32 off v buf = copy_at off buf (uint32_bytes v)
