-- ===== src/Server/Backend.antt =====
-- internal/server/server.go, writeBackendPacket: a session's UDP connection to the backend.
use t2d.Base.{ℕ, ◌≡◌, ◌⊎◌, arith, List, [], ◌∷◌, ◌++◌, Bool, true, false, length, if◌then◌else◌}
use t2d.Stats
use t2d.Stats.{Stats}

-- The payloads that the connection has taken, and the server's counters.
pub record Backend : Type 0 where
  pub sent : List (List ℕ)
  pub stats : Stats

-- Whether `conn.Write` succeeds is the network's choice: it may depend on all that was sent.
module _ (accepts : List (List ℕ) → List ℕ → Bool) where
  unfoldable pub write_backend_packet : Backend → List ℕ → Backend × Bool
  write_backend_packet b payload =
      if accepts b.sent payload
      then (
        record b {
          sent = b.sent ++ (payload ∷ []);
          stats = Stats.add_packets_sent 1 (Stats.add_bytes_sent (length payload) b.stats);
        },
        true,
      )
      else (record b { stats = Stats.add_error b.stats }, false)

  -- A write appends the payload to what was sent, or fails and leaves that as it was.
  pub write-cases :
      (b : Backend) (payload : List ℕ)
      → (((write_backend_packet b payload).1 ≡ true)
          × ((write_backend_packet b payload).0.sent ≡ b.sent ++ (payload ∷ [])))
        ⊎ (((write_backend_packet b payload).1 ≡ false)
            × ((write_backend_packet b payload).0.sent ≡ b.sent))
  unfolding write_backend_packet
  write-cases b payload = ground arith
