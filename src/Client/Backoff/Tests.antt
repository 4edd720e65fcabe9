-- ===== src/Client/Backoff/Tests.antt =====
-- The third attempt of a lane that starts at one second, and the sixth, which the maximum cuts.
use t2d.Base.{ℕ, zero, suc, ◌+◌, ◌*◌, ◌≡◌, refl, arith}
use t2d.Base.Int.{pos}
use t2d.Client.Backoff.{reconnect_delay, second}
use t2d.Client.Backoff.Growth.{reconnect_delay-eq-doubled}

-- The largest number that may be drawn.
abbrev largest : ℕ → ℕ
largest zero = 0
largest (suc n) = n

reconnect_delay-eq-doubled_example :
    reconnect_delay largest (pos 1) (pos 30) (pos 5) 3 ≡ pos (8 * second + 5000000)
reconnect_delay-eq-doubled_example =
    reconnect_delay-eq-doubled largest 1 30 5 3 (omega arith) (omega arith) (omega arith)
      (omega arith) (λ n. omega arith)

cut_at_maximum : reconnect_delay largest (pos 1) (pos 30) (pos 0) 6 ≡ pos (30 * second)
unfolding reconnect_delay
cut_at_maximum = refl
