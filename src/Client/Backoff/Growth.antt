-- ===== src/Client/Backoff/Growth.antt =====
-- internal/client/client.go, reconnectDelay: its value, attempt by attempt.
use t2d.Base.{
  ℕ, zero, suc, ◌+◌, ◌*◌, ◌^◌, ◌≤◌, ◌<◌, ◌≡◌, refl, ap, ap₂, ◌∙◌, inl, inr, min, max, true, false,
  arith, Bool-cases, ltb, leb, if◌then◌else◌, ◌==◌,
}
use t2d.Base.Int.{ℤ, pos, ltb_ℤ, wrap64, add_ℕ, pos_part, scale}
use native.Mathlib.Nat.{pow-suc, mul-le-mul_right, mul_comm}
use t2d.Client.Backoff.{
  base_delay, max_delay, double_delay, grow_delay, add_jitter, reconnect_delay, second, millisecond,
}

base_delay-pos : (i : ℕ) → 0 < i → i ≤ 2 ^ 32 → base_delay (pos i) ≡ pos (i * second)
unfolding base_delay
base_delay-pos i h b = ground arith

max_delay-pos :
    (i m : ℕ) → 0 < i → i ≤ 2 ^ 32 → m ≤ 2 ^ 32 → max_delay (pos i) (pos m) ≡ pos (max m i * second)
unfolding max_delay
max_delay-pos i m h b c = rw (base_delay-pos i h b) (ground arith)

double_delay-pos :
    (d longest : ℕ)
    → d < longest
    → longest ≤ 2 ^ 62
    → double_delay (pos longest) (pos d) ≡ pos (min (d * 2) longest)
unfolding double_delay
double_delay-pos d longest h b = ground arith

pow_next : (k d : ℕ) → d * 2 ^ suc k ≡ d * 2 * 2 ^ k
pow_next k d = rw (pow-suc 2 k) (grind arith)

le-mul_pow : (k n : ℕ) → n ≤ n * 2 ^ k
le-mul_pow zero n = omega arith
le-mul_pow (suc k) n =
    omega (arith, le-mul_pow k n, pow_next k n, mul_comm (n * 2) (2 ^ k), mul_comm n (2 ^ k))

-- One doubling more, cut at the largest delay on the way or at the end.
min-double :
    (k d longest : ℕ)
    → d ≤ longest
    → min (min (d * 2) longest * 2 ^ k) longest ≡ min (d * 2 ^ suc k) longest
min-double k d longest h = elim (Bool-cases (leb (d * 2) longest)) [
  | inl within ↦
      let low : min (d * 2) longest ≡ d * 2 = ground arith in rw low (omega (arith, pow_next k d))
  | inr beyond ↦
      let cut : min (d * 2) longest ≡ longest = ground arith in
      let over : longest ≤ d * 2 = ground arith in
      rw cut (omega (arith, pow_next k d, mul-le-mul_right (2 ^ k) over, le-mul_pow k longest))
]

grow_delay-zero : (longest delay : ℤ) → grow_delay 0 longest delay ≡ delay
unfolding grow_delay
grow_delay-zero longest delay = refl

grow_delay-below :
    (k : ℕ) (longest delay : ℤ)
    → ltb_ℤ delay longest ≡ true
    → grow_delay (suc k) longest delay ≡ grow_delay k longest (double_delay longest delay)
unfolding grow_delay
grow_delay-below k longest delay h = rw (h, grow_delay) refl

grow_delay-top :
    (k : ℕ) (longest delay : ℤ)
    → ltb_ℤ delay longest ≡ false
    → grow_delay (suc k) longest delay ≡ delay
unfolding grow_delay
grow_delay-top k longest delay h = rw (h, grow_delay) refl

grow_delay-pos :
    (k d longest : ℕ)
    → d ≤ longest
    → longest ≤ 2 ^ 62
    → grow_delay k (pos longest) (pos d) ≡ pos (min (d * 2 ^ k) longest)
grow_delay-pos zero d longest h b = grow_delay-zero (pos longest) (pos d) ∙ ap pos (omega arith)
grow_delay-pos (suc k) d longest h b = elim (Bool-cases (ltb d longest)) [
  | inl below ↦
      let rise : d < longest = ground arith in
      grow_delay-below k (pos longest) (pos d) (ground arith)
      ∙ ap (grow_delay k (pos longest)) (double_delay-pos d longest rise b)
      ∙ grow_delay-pos k (min (d * 2) longest) longest (omega arith) b
      ∙ ap pos (min-double k d longest h)
  | inr top ↦
      let full : d ≡ longest = ground arith in
      grow_delay-top k (pos longest) (pos d) (ground arith)
      ∙ ap pos (omega (arith, le-mul_pow (suc k) d, full))
]

add_jitter-none :
    (random : ℕ → ℕ) (jitter_ms delay : ℤ)
    → ltb_ℤ (pos 0) jitter_ms ≡ false
    → add_jitter random jitter_ms delay ≡ delay
unfolding add_jitter
add_jitter-none random jitter_ms delay h = rw (h, add_jitter) refl

add_jitter-some :
    (random : ℕ → ℕ) (jitter_ms delay : ℤ)
    → ltb_ℤ (pos 0) jitter_ms ≡ true
    → add_jitter random jitter_ms delay
      ≡ wrap64 (add_ℕ delay (random (pos_part (wrap64 (scale millisecond jitter_ms)) + 1)))
unfolding add_jitter
add_jitter-some random jitter_ms delay h = rw (h, add_jitter) refl

wrap64-small : (n : ℕ) → n < 2 ^ 63 → wrap64 (pos n) ≡ pos n
wrap64-small n h = ground arith

jitter_max-pos : (j : ℕ) → j ≤ 2 ^ 32 → wrap64 (scale millisecond (pos j)) ≡ pos (j * millisecond)
jitter_max-pos j h = wrap64-small (j * millisecond) (omega arith)

add_jitter-pos :
    (random : ℕ → ℕ) (j d : ℕ)
    → j ≤ 2 ^ 32
    → d ≤ 2 ^ 62
    → ((n : ℕ) → random (suc n) ≤ n)
    → add_jitter random (pos j) (pos d)
      ≡ pos (d + (if j == 0 then 0 else random (j * millisecond + 1)))
add_jitter-pos random j d hj hd within = elim (Bool-cases (j == 0)) [
  | inl none_set ↦
      rw none_set (add_jitter-none random (pos j) (pos d) (ground arith) ∙ ap pos (omega arith))
  | inr some_set ↦
      let bound = within (j * millisecond) in
      let next : j * millisecond + 1 ≡ suc (j * millisecond) = omega arith in
      rw some_set (
        add_jitter-some random (pos j) (pos d) (ground arith)
        ∙ ap (λ (x : ℤ). wrap64 (add_ℕ (pos d) (random (pos_part x + 1)))) (jitter_max-pos j hj)
        ∙ rw next (wrap64-small (d + random (suc (j * millisecond))) (omega arith)))
]

-- For intervals of 1 to 2³² seconds, a jitter of at most 2³² ms and random numbers below the bound
-- they are drawn for: before attempt k the lane waits for the first interval times 2^k, cut at the
-- larger of the two intervals, and for the random part on top where a jitter is set. No product
-- overflows.
pub reconnect_delay-eq-doubled :
    (random : ℕ → ℕ) (i m j k : ℕ)
    → 0 < i
    → i ≤ 2 ^ 32
    → m ≤ 2 ^ 32
    → j ≤ 2 ^ 32
    → ((n : ℕ) → random (suc n) ≤ n)
    → reconnect_delay random (pos i) (pos m) (pos j) k
      ≡ pos (
          min (i * second * 2 ^ k) (max m i * second)
          + (if j == 0 then 0 else random (j * millisecond + 1)))
unfolding reconnect_delay
reconnect_delay-eq-doubled random i m j k h hi hm hj within =
    let longest : ℕ = max m i * second in
    ap₂ (λ (a b : ℤ). add_jitter random (pos j) (grow_delay k a b)) (max_delay-pos i m h hi hm)
      (base_delay-pos i h hi)
    ∙ ap (add_jitter random (pos j))
        (grow_delay-pos k (i * second) longest (omega arith) (omega arith))
    ∙ add_jitter-pos random j (min (i * second * 2 ^ k) longest) hj (omega arith) within
