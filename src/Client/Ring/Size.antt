-- ===== src/Client/Ring/Size.antt =====
-- internal/client/upstream_ring.go, nextPowerOfTwo and newUpstreamRing: the size of the ring.
use t2d.Base.{
  ℕ, zero, suc, ◌+◌, ◌*◌, ◌^◌, ◌≤◌, ◌<◌, ◌≡◌, refl, ◌⊎◌, inl, inr, arith, ◌%◌, Bool-cases,
}
use t2d.Base.Bits.{pow_double, pow_pos}
use t2d.Client.Ring.{double_until, next_power_of_two, is_below}

-- A power of two that is at least `n` and, unless it is `p`, less than twice `n`.
abbrev IsRounded : ℕ → ℕ → ℕ → Type 0
IsRounded p n q = (j : ℕ) × (q ≡ 2 ^ j) × (n ≤ q) × ((q ≡ p) ⊎ (q < 2 * n))

double_until-IsRounded :
    (fuel k p n : ℕ)
    → p ≡ 2 ^ k
    → p < 2 ^ 63
    → n ≤ 2 ^ 62
    → n ≤ p + fuel
    → IsRounded p n (double_until fuel p n)
unfolding double_until
double_until-IsRounded zero k p n e word small h = (k, e, omega arith, inl refl)
double_until-IsRounded (suc fuel) k p n e word small h = elim (Bool-cases (is_below p n)) [
  | inl less ↦
      let below : p < n = ground arith in
      let same : p * 2 % 2 ^ 64 ≡ p * 2 = omega arith in
      let (j, pow, big, near) =
        double_until-IsRounded fuel (suc k) (p * 2) n (omega (arith, pow_double k)) (omega arith)
          small (omega (arith, pow_pos k)) in
      rw (less, same) (j, pow, big, inr (ground arith))
  | inr enough ↦ rw enough (k, e, ground arith, inl refl)
]

-- For a number from 1 to 2⁶², nextPowerOfTwo, whose int is a word of 64 bits, comes to an end and gives a
-- power of two that is at least the number and less than twice it.
pub next_power_of_two_lem :
    (n : ℕ)
    → 0 < n
    → n ≤ 2 ^ 62
    → (j : ℕ) × (next_power_of_two n ≡ 2 ^ j)
      × (n ≤ next_power_of_two n)
      × (next_power_of_two n < 2 * n)
unfolding next_power_of_two
next_power_of_two_lem n h small =
    let (j, pow, big, near) =
      double_until-IsRounded n 0 1 n refl (omega arith) small (omega arith) in
    (j, pow, big, omega arith)
