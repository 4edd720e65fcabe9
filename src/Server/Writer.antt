-- ===== src/Server/Writer.antt =====
-- internal/server/server.go, downstreamWriter: the goroutine that takes the frames of a lane from its
-- channel and writes them in batches, as steps between which other goroutines add frames and change
-- the lane's connection. A step that its goroutine cannot make changes nothing.
pub mod Order
pub mod Bounds
pub mod Delay
pub mod Progress
mod Tests
use t2d.Base.{
  ℕ, ◌+◌, ◌/◌, List, [], ◌∷◌, ◌++◌, Bool, ◌&&◌, Option, none, some, length, ltb, leb, ◌==◌,
  if◌then◌else◌,
}
use t2d.Base.Int.{ℤ, pos, pos_part, leb_ℤ}
use t2d.Stats
use t2d.Stats.{Stats}
use t2d.Server.Lanes.{DownstreamWriter, enqueue, set_conn, clear_conn}

-- `batchMaxPackets`, `batchMaxBytes` and `batchMaxDelay`.
pub record Limits : Type 0 where
  pub max_packets : ℕ
  pub max_bytes : ℕ
  pub max_delay : ℕ

-- `max(n, z)` for the built-in max of Go.
abbrev pub max_int : ℕ → ℤ → ℕ
max_int n z = if leb_ℤ (pos n) z then pos_part z else n

-- The limits that newDownstreamWriter sets.
pub new_limits : ℤ → ℤ → ℤ → Limits
new_limits packets bytes delay = record {
  max_packets = max_int 1 packets;
  max_bytes = max_int 1 bytes;
  max_delay = max_int 0 delay;
}

-- For the number of frames in the channel.
pub adaptive_delay : Limits → ℕ → ℕ
adaptive_delay l pending =
    if l.max_delay == 0
    then 0
    else if leb l.max_packets pending
    then 0
    else if leb (l.max_packets / 2) pending
    then l.max_delay / 4
    else if leb (l.max_packets / 4) pending
    then l.max_delay / 2
    else l.max_delay

-- Where `run` stands: in the outer `select`, in that of the timer, in the inner loop, or returned.
pub data Place : Type 0 where
  selecting : Place
  delaying : Place
  collecting : Place
  returned : Place

-- A batch that `flush` has dealt with: the connection it went to, or none if it was dropped.
pub record Flush : Type 0 where
  pub to : Option ℕ
  pub frames : List (List ℕ)

-- `accepted` are the frames for which enqueue has returned true, `flushed` what became of them.
pub record WriterLoop : Type 0 where
  pub writer : DownstreamWriter
  pub stats : Stats
  pub place : Place
  pub batch : List (List ℕ)
  pub batch_bytes : ℕ
  pub accepted : List (List ℕ)
  pub flushed : List Flush

-- `for _, frame := range batch { AddBytesSent; AddPacketsSent }`
pub count_frames : List (List ℕ) → Stats → Stats
count_frames [] stats = stats
count_frames (f ∷ fs) stats =
    count_frames fs (Stats.add_packets_sent 1 (Stats.add_bytes_sent (length f) stats))

-- The counters after a batch, for its connection and for whether AsyncWritev returns no error.
pub count_batch : Bool → Option ℕ → List (List ℕ) → Stats → Stats
unfolding count_frames
count_batch taken none frames stats = stats
count_batch taken (some c) frames stats =
    count_frames frames (if taken then stats else Stats.add_error stats)

pub flush_batch : Bool → List (List ℕ) → WriterLoop → WriterLoop
unfolding count_batch
flush_batch taken [] s = s
flush_batch taken (f ∷ fs) s = record s {
  stats = count_batch taken s.writer.conn (f ∷ fs) s.stats;
  batch = [];
  batch_bytes = 0;
  flushed = s.flushed ++ (record { to = s.writer.conn; frames = f ∷ fs } ∷ []);
}

-- `flush`, and where the loop goes on.
pub flush : Bool → Place → WriterLoop → WriterLoop
unfolding flush_batch
flush taken next s = record (flush_batch taken s.batch s) { place = next }

-- `batch = append(batch, frame)` and `batchBytes += len(frame)`
pub add_frame : List ℕ → List (List ℕ) → WriterLoop → WriterLoop
add_frame f fs s = record s {
  writer = record s.writer { ch = fs };
  batch = s.batch ++ (f ∷ []);
  batch_bytes = s.batch_bytes + length f;
}

abbrev pub has_room : Limits → WriterLoop → Bool
has_room l s = ltb (length s.batch) l.max_packets && ltb s.batch_bytes l.max_bytes

-- The steps of the goroutine, with the result of AsyncWritev where it may flush, and of others.
pub data Event : Type 0 where
  selects : Event
  fires : Event
  collects : Bool → Event
  sees_done : Bool → Event
  enqueues : List ℕ → Event
  sets_conn : ℕ → Event
  clears_conn : ℕ → Event

module _ (l : Limits) where
  -- `case frame := <-w.ch`, up to the timer.
  pub take_first : List (List ℕ) → WriterLoop → WriterLoop
  unfolding add_frame adaptive_delay
  take_first [] s = s
  take_first (f ∷ fs) s =
      let s' = add_frame f fs s in
      if has_room l s' && ltb 0 (adaptive_delay l (length fs))
      then record s' { place = delaying }
      else record s' { place = collecting }

  -- The `select` of the inner loop.
  pub take_more : Bool → List (List ℕ) → WriterLoop → WriterLoop
  unfolding add_frame flush
  take_more taken [] s = flush taken selecting s
  take_more taken (f ∷ fs) s = add_frame f fs s

  pub select_first : Place → WriterLoop → WriterLoop
  unfolding take_first
  select_first selecting s = take_first s.writer.ch s
  select_first p s = s

  pub fire_timer : Place → WriterLoop → WriterLoop
  fire_timer delaying s = record s { place = collecting }
  fire_timer p s = s

  -- A round of the inner loop, or the flush behind it.
  pub collect : Bool → Place → WriterLoop → WriterLoop
  unfolding take_more flush
  collect taken collecting s =
      if has_room l s then take_more taken s.writer.ch s else flush taken selecting s
  collect taken p s = s

  -- `case <-ctx.Done()`
  pub see_done : Bool → Place → WriterLoop → WriterLoop
  unfolding flush
  see_done taken selecting s = record s { place = returned }
  see_done taken delaying s = flush taken returned s
  see_done taken p s = s

  pub enqueue_frame : List ℕ → WriterLoop → WriterLoop
  unfolding enqueue
  enqueue_frame f s =
      let (w, entered) = enqueue f s.writer in
      if entered then record s { writer = w; accepted = s.accepted ++ (f ∷ []) } else s

  pub step : WriterLoop → Event → WriterLoop
  unfolding select_first fire_timer collect see_done enqueue_frame set_conn clear_conn
  step s selects = select_first s.place s
  step s fires = fire_timer s.place s
  step s (collects taken) = collect taken s.place s
  step s (sees_done taken) = see_done taken s.place s
  step s (enqueues f) = enqueue_frame f s
  step s (sets_conn c) = record s { writer = set_conn c s.writer }
  step s (clears_conn c) = record s { writer = clear_conn c s.writer }

  pub run : WriterLoop → List Event → WriterLoop
  run s [] = s
  run s (e ∷ es) = run (step s e) es

-- `newDownstreamWriter`: an empty channel and no connection.
pub new_downstream_writer : Stats → WriterLoop
new_downstream_writer stats = record {
  writer = record { ch = []; conn = none };
  stats = stats;
  place = selecting;
  batch = [];
  batch_bytes = 0;
  accepted = [];
  flushed = [];
}
