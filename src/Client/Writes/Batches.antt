-- ===== src/Client/Writes/Batches.antt =====
-- internal/client/client.go, handleUpstreamWrites: the loop makes the ring's steps, and keeps its limit.
use t2d.Base.{ℕ, ◌≡◌, List, [], ◌++◌, map, if◌then◌else◌}
use t2d.Client.Ring.System.{System}
use t2d.Client.Writes.{Writer}
use t2d.Stats.{Stats}
use t2d.Server.Writer.Order.{frames_of}
use t2d.Client.Ring.Window.{slot_data}
use t2d.Client.Writes.Logs.{is_written}
use t2d.Client.Writes.Goes.{Goes}

-- The data of the packets of the batch that no call of writeUpstreamBatch was given yet.
abbrev pub unwritten : Writer → List (List ℕ)
unwritten w = if is_written w.place then [] else map (slot_data w.system.ring.slots) w.system.batch

-- What the calls of writeUpstreamBatch were given, then what waits in the batch, and then what is queued
-- in the ring, is what was submitted.
abbrev pub WritesInOrder : Writer → Type 0
WritesInOrder w =
    (queued : List (List ℕ)) × (w.system.submitted ≡ frames_of w.flushes ++ (unwritten w ++ queued))
