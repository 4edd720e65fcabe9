-- ===== src/Base/Bits.antt =====
-- Masks: `x & (2^k - 1)` is a remainder.
use Prim.Native.Nat.{
  ℕ, zero, suc, ◌+◌, ◌-◌, ◌*◌, ◌/◌, ◌%◌, ◌^◌, ◌≤◌, ◌<◌, ◌∣◌, min, bit_and, digits, bit_and-bitwise,
}
use mathlib.Core.Path.{◌≡◌, refl, ap, ap₂, ◌∙◌}
use native.Mathlib.Nat.{
  pow-suc, mul-add-mod_self_left, mod-eq_of_lt, mod-lt, div-add-mod, mod-mod_of_dvd, dvd_refl,
  dvd-mul_left_of_dvd,
}
use native.Mathlib.Decide.{dec_le}
use native.Mathlib.Omega.{arith}

-- The digit recursion that the native operation stands for.
abbrev and_digits : ℕ → ℕ → ℕ → ℕ
and_digits fuel a b = digits (λ _. zero) min fuel a b

and_digits_enough : (f g a b : ℕ) → a ≤ f → a ≤ g → and_digits f a b ≡ and_digits g a b
and_digits_enough zero zero a b hf hg = refl
and_digits_enough zero (suc g) zero b hf hg = refl
and_digits_enough zero (suc g) (suc a) b hf hg = absurd (omega arith)
and_digits_enough (suc f) zero zero b hf hg = refl
and_digits_enough (suc f) zero (suc a) b hf hg = absurd (omega arith)
and_digits_enough (suc f) (suc g) zero b hf hg = refl
and_digits_enough (suc f) (suc g) (suc a) b hf hg =
    omega (arith, and_digits_enough f g (suc a / 2) (b / 2) (omega arith) (omega arith))

bit_and_low : (a b : ℕ) → bit_and a b ≡ bit_and (a / 2) (b / 2) * 2 + min (a % 2) (b % 2)
bit_and_low zero b = omega (arith, bit_and-bitwise 0 b, bit_and-bitwise 0 (b / 2))
bit_and_low (suc a) b = omega (
  arith,
  bit_and-bitwise (suc a) b,
  bit_and-bitwise (suc a / 2) (b / 2),
  and_digits_enough a (suc a / 2) (suc a / 2) (b / 2) (omega arith) (omega arith),
)

bit_and_zero_bounded : (n a : ℕ) → a ≤ n → bit_and a 0 ≡ 0
bit_and_zero_bounded n zero h = refl
bit_and_zero_bounded zero (suc a) h = absurd (omega arith)
bit_and_zero_bounded (suc n) (suc a) h =
    omega (arith, bit_and_low (suc a) 0, bit_and_zero_bounded n (suc a / 2) (omega arith))

pub pow_double : (k : ℕ) → 2 ^ suc k ≡ 2 * 2 ^ k
pow_double k = omega (arith, pow-suc 2 k)

pub pow_pos : (k : ℕ) → 0 < 2 ^ k
pow_pos zero = omega arith
pow_pos (suc k) = omega (arith, pow_double k, pow_pos k)

mod_double : (a p : ℕ) → 0 < p → a % (2 * p) ≡ a / 2 % p * 2 + a % 2
mod_double a p h =
    ap (λ (n : ℕ). n % (2 * p)) split
    ∙ mul-add-mod_self_left (2 * p) (a / 2 / p) (a / 2 % p * 2 + a % 2)
    ∙ mod-eq_of_lt (omega (arith, mod-lt (a / 2) h))
  where
    split : a ≡ 2 * p * (a / 2 / p) + (a / 2 % p * 2 + a % 2)
    split = omega (arith, div-add-mod (a / 2) p)

mask_step :
    (a m : ℕ) → 0 < m → bit_and (a / 2) (m - 1) ≡ a / 2 % m → bit_and a (2 * m - 1) ≡ a % (2 * m)
mask_step a m pos ih =
    bit_and_low a (2 * m - 1)
    ∙ ap₂ (λ (x y : ℕ). bit_and (a / 2) x * 2 + min (a % 2) y) half odd
    ∙ omega (arith, ih, mod_double a m pos)
  where
    half : (2 * m - 1) / 2 ≡ m - 1
    half = omega arith

    odd : (2 * m - 1) % 2 ≡ 1
    odd = omega arith

-- The mask of a power of two takes the remainder.
pub bit_and_mask : (k a : ℕ) → bit_and a (2 ^ k - 1) ≡ a % 2 ^ k
bit_and_mask zero a = bit_and_zero_bounded a a (omega arith) ∙ omega arith
bit_and_mask (suc k) a =
    rw (pow_double k) (mask_step a (2 ^ k) (pow_pos k) (bit_and_mask k (a / 2)))

pow-dvd : (k n : ℕ) → k ≤ n → 2 ^ k ∣ 2 ^ n
pow-dvd k zero h = let e : k ≡ 0 = omega arith in rw e (dvd_refl 1)
pow-dvd k (suc n) h = elim (dec_le k n) [
  | yes le ↦ rw (pow_double n) (dvd-mul_left_of_dvd (2 ^ k) (pow-dvd k n le) 2)
  | no gt ↦ let e : k ≡ suc n = omega arith in rw e (dvd_refl (2 ^ suc n))
]

-- A counter that wraps at 2^64 finds its place in a table of a smaller power of two.
pub mod-mod_pow : (k n a : ℕ) → k ≤ n → a % 2 ^ n % 2 ^ k ≡ a % 2 ^ k
mod-mod_pow k n a h = mod-mod_of_dvd (2 ^ k) a (pow-dvd k n h)
