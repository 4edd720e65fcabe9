-- ===== src/Server/Writer/Tests.antt =====
-- A lane that gets five frames, three of them for a connection.
use t2d.Base.{◌≡◌, ◌≤◌, ◌+◌, ◌*◌, length, refl, List, [], ◌∷◌, true, false, some, none, All}
use t2d.Base.Int.{pos}
use t2d.Stats.{new}
use t2d.Server.Lanes.{enqueue, set_conn}
use t2d.Server.Writer.{
  Flush, Limits, new_limits, adaptive_delay, Event, run, new_downstream_writer, selects, fires,
  collects, sees_done, enqueues, sets_conn, clears_conn,
}
use t2d.Server.Writer.Order.{InOrder, frames_of, run-new_downstream_writer-InOrder}
use t2d.Server.Writer.Progress.{is_loop_step, run-writes_all}
use t2d.Server.Writer.Bounds.{IsBatch, run-new_downstream_writer-IsBatch}

-- A frame is dropped while there is no connection; of the next, two make a batch by the limit on
-- frames, one by the limit on bytes, and the last waits in the channel.
abbrev schedule : List Event
schedule =
    enqueues (1 ∷ [])
    ∷ selects
    ∷ fires
    ∷ collects true
    ∷ sets_conn 9
    ∷ enqueues (2 ∷ [])
    ∷ enqueues (3 ∷ [])
    ∷ enqueues (4 ∷ 5 ∷ 6 ∷ 7 ∷ [])
    ∷ enqueues (8 ∷ [])
    ∷ selects
    ∷ collects true
    ∷ collects false
    ∷ selects
    ∷ collects true
    ∷ []

run_example :
    (run (new_limits (pos 2) (pos 4) (pos 100)) (new_downstream_writer (new 0)) schedule).flushed
    ≡ record { to = none; frames = (1 ∷ []) ∷ [] }
      ∷ record { to = some 9; frames = (2 ∷ []) ∷ (3 ∷ []) ∷ [] }
      ∷ record { to = some 9; frames = (4 ∷ 5 ∷ 6 ∷ 7 ∷ []) ∷ [] }
      ∷ []
unfolding run new_limits new_downstream_writer enqueue set_conn t2d.Server.Writer.step
run_example = refl

run-new_downstream_writer-InOrder_example :
    InOrder (run (new_limits (pos 2) (pos 4) (pos 100)) (new_downstream_writer (new 0)) schedule)
run-new_downstream_writer-InOrder_example =
    run-new_downstream_writer-InOrder (new_limits (pos 2) (pos 4) (pos 100)) (new 0) schedule

run-new_downstream_writer-IsBatch_example :
    All
      (λ (b : Flush). IsBatch (new_limits (pos 2) (pos 4) (pos 100)) b.frames)
      (run (new_limits (pos 2) (pos 4) (pos 100)) (new_downstream_writer (new 0)) schedule).flushed
run-new_downstream_writer-IsBatch_example =
    run-new_downstream_writer-IsBatch (pos 2) (pos 4) (pos 100) (new 0) schedule

-- Behind the schedule a frame waits in the channel.
run-writes_all_example :
    let l = new_limits (pos 2) (pos 4) (pos 100) in
    let s = run l (new_downstream_writer (new 0)) schedule in
    (more : List Event) × All (λ e. is_loop_step e ≡ true) more
    × (length more ≤ 3 * length s.writer.ch + 2)
    × (frames_of (run l s more).flushed ≡ s.accepted)
    × ((run l s more).batch ≡ [])
    × ((run l s more).writer.ch ≡ [])
unfolding run new_limits new_downstream_writer enqueue set_conn t2d.Server.Writer.step
run-writes_all_example = run-writes_all (new_limits (pos 2) (pos 4) (pos 100)) (new 0) schedule refl
