-- ===== src/Client/Upstream/Tests.antt =====
-- A lane that connects, waits, and loses its connection to the server and then to a failed write.
use t2d.Base.{◌≡◌, ◌≤◌, refl, List, [], ◌∷◌, true, false, length, All}
use t2d.Stats.{new, add_bytes_sent, add_packets_sent, add_error}
use t2d.Client.Upstream.{
  Event, dialing, checks, dials, drains, writes, read_returns, step, run, start,
}
use t2d.Client.Upstream.Wakeup.{is_internal, run-redials}

-- The write fails while the manager waits, and the watcher has yet to send its token.
abbrev schedule : List Event
schedule =
    checks
    ∷ dials 7
    ∷ drains
    ∷ checks
    ∷ writes (record { written = 10; failed = false }) 2
    ∷ read_returns 7
    ∷ writes (record { written = 3; failed = true }) 1
    ∷ []

run-redials_example :
    (more : List Event) × All (λ e. is_internal e ≡ true) more
    × (length more ≤ 3)
    × ((run (run (start (new 0)) schedule) more).manager ≡ dialing)
unfolding run step start
run-redials_example = run-redials (new 0) schedule refl refl

-- Bytes are counted, packets of the batch that went out, and an error of the batch without a connection.
counters :
    let s = (run (start (new 0)) schedule).stats in
    (s.bytes_sent ≡ 10) × (s.packets_sent ≡ 2) × (s.errors ≡ 1)
unfolding run step start new add_bytes_sent add_packets_sent add_error
counters = (refl, refl, refl)
