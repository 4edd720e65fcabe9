-- ===== src/Client/Writes/Tests.antt =====
-- A ring of two packets whose loop waits for a second packet and writes both in one batch; a third packet
-- is dropped, since the connection is lost, and a fourth is written to the next connection.
use t2d.Base.{ℕ, List, [], ◌∷◌, false, some}
use t2d.Base.Int.{pos}
use t2d.Client.Upstream.{UpstreamLane, WriteResult}
use t2d.Client.Writes.{
  Limits, WriteEvent, pops_first, times_out, pops_more, writes_batch, gives_back, connects,
  disconnects, reserves, writes, sends,
}

abbrev pairs : Limits
pairs = record { max_packets = pos 2; max_bytes = pos 100; max_delay = pos 8 }

abbrev up : UpstreamLane
up = record { conn = some 5; reconnect = false }

abbrev wrote : ℕ → WriteResult
wrote n = record { written = n; failed = false }

abbrev submit_one : ℕ → List WriteEvent → List WriteEvent
submit_one x es = reserves ∷ writes (x ∷ []) ∷ sends ∷ es

abbrev write_one : List WriteEvent → List WriteEvent
write_one es =
    pops_first ∷ times_out ∷ pops_more ∷ writes_batch (wrote 1) ∷ gives_back ∷ gives_back ∷ es

abbrev history : List WriteEvent
history = submit_one 7 (
    pops_first
    ∷ submit_one 8 (
        times_out
        ∷ pops_more
        ∷ pops_more
        ∷ writes_batch (wrote 2)
        ∷ gives_back
        ∷ gives_back
        ∷ gives_back
        ∷ disconnects
        ∷ submit_one 9 (write_one (connects 6 ∷ submit_one 10 (write_one [])))))
