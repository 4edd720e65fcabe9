-- ===== src/Server/Writer/Delay.antt =====
-- internal/server/server.go, adaptiveDelay: how long a batch waits for more frames.
use t2d.Base.{ℕ, ◌≤◌, arith}
use t2d.Server.Writer.{Limits, adaptive_delay}

-- The more frames are in the channel, the shorter a batch waits, and it never waits longer than its
-- largest delay.
pub adaptive_delay_antitone :
    (l : Limits) (fewer more : ℕ)
    → fewer ≤ more
    → (adaptive_delay l more ≤ adaptive_delay l fewer) × (adaptive_delay l fewer ≤ l.max_delay)
unfolding adaptive_delay
adaptive_delay_antitone l fewer more h = (ground arith, ground arith)
