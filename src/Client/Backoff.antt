-- ===== src/Client/Backoff.antt =====
-- internal/client/client.go, reconnectDelay: how long a lane waits before it dials again. Durations
-- are int64 nanoseconds, and every product wraps round.
pub mod Growth
mod Tests
use t2d.Base.{ℕ, zero, suc, ◌+◌, ◌^◌, if◌then◌else◌}
use t2d.Base.Int.{ℤ, pos, negsuc, ltb_ℤ, leb_ℤ, pos_part, wrap64, scale, add_ℕ}

abbrev pub second : ℕ
second = 10 ^ 9

abbrev pub millisecond : ℕ
millisecond = 10 ^ 6

-- `base` and `maxDelay`, for the two intervals in seconds.
pub base_delay : ℤ → ℤ
base_delay interval =
    let base = wrap64 (scale second interval) in if leb_ℤ base (pos 0) then pos second else base

pub max_delay : ℤ → ℤ → ℤ
unfolding base_delay
max_delay interval max_interval =
    let longest = wrap64 (scale second max_interval) in
    if ltb_ℤ longest (base_delay interval) then base_delay interval else longest

-- A round of the loop: `delay *= 2`, cut at the largest delay.
pub double_delay : ℤ → ℤ → ℤ
double_delay longest delay =
    let twice = wrap64 (scale 2 delay) in if ltb_ℤ longest twice then longest else twice

-- `for i := 0; i < attempt && delay < maxDelay; i++`
pub grow_delay : ℕ → ℤ → ℤ → ℤ
unfolding double_delay
grow_delay zero longest delay = delay
grow_delay (suc i) longest delay =
    let rest = grow_delay i longest (double_delay longest delay) in
    if ltb_ℤ delay longest then rest else delay

-- `random` is `rand.Int63n`, which panics at an argument that is not positive.
pub add_jitter : (ℕ → ℕ) → ℤ → ℤ → ℤ
add_jitter random jitter_ms delay =
    let jitter_max = wrap64 (scale millisecond jitter_ms) in
    if ltb_ℤ (pos 0) jitter_ms
    then wrap64 (add_ℕ delay (random (pos_part jitter_max + 1)))
    else delay

pub reconnect_delay : (ℕ → ℕ) → ℤ → ℤ → ℤ → ℕ → ℤ
unfolding max_delay grow_delay add_jitter
reconnect_delay random interval max_interval jitter_ms attempt =
    add_jitter random jitter_ms
      (grow_delay attempt (max_delay interval max_interval) (base_delay interval))
