-- ===== src/Crypto/Xor.antt =====
-- internal/crypto/crypto.go, XORCipher on bytes.
use Prim.Native.Nat.{bit_xor}
use native.Mathlib.Decide.{dec_le}
use t2d.Base.{ℕ, zero, suc, ◌<◌, ◌≡◌, refl, ap, ap₂, List, [], ◌∷◌, map, arith, length, IsBytes}
use t2d.Crypto.{xor_bytes}

-- The numbers below a bound, the largest first.
countdown : ℕ → List ℕ
countdown zero = []
countdown (suc n) = n ∷ countdown n

map-countdown_at :
    (f : ℕ → ℕ) (bound x : ℕ) → map f (countdown bound) ≡ countdown bound → x < bound → f x ≡ x
unfolding countdown
map-countdown_at f zero x same inside = absurd (omega arith)
map-countdown_at f (suc n) x same inside = elim (dec_le n x) [
  | yes up ↦ let top : x ≡ n = omega arith in let first : f n ≡ n = ground (arith, same) in cc
  | no down ↦ map-countdown_at f n x (ground (arith, same)) (omega arith)
]

-- All bytes at once, by computation.
masked_twice : map (λ x. bit_xor (bit_xor x 0xaa) 0xaa) (countdown 256) ≡ countdown 256
unfolding countdown
masked_twice = refl

pub xor_bytes-xor_bytes : (xs : List ℕ) → IsBytes xs → xor_bytes (xor_bytes xs) ≡ xs
unfolding xor_bytes
xor_bytes-xor_bytes [] h = refl
xor_bytes-xor_bytes (x ∷ xs) h =
    let back : bit_xor (bit_xor x 0xaa) 0xaa ≡ x = map-countdown_at _ 256 x masked_twice h.0 in
    ap₂ (λ (y : ℕ) (ys : List ℕ). y ∷ ys) back (xor_bytes-xor_bytes xs h.1)

pub length-xor_bytes : (xs : List ℕ) → length (xor_bytes xs) ≡ length xs
unfolding xor_bytes
length-xor_bytes [] = refl
length-xor_bytes (x ∷ xs) = ap suc (length-xor_bytes xs)
