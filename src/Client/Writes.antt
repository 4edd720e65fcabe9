-- ===== src/Client/Writes.antt =====
-- internal/client/client.go, handleUpstreamWrites: the goroutine that takes a lane's packets from its
-- ring and writes them in batches, as steps between which the producer makes its own. A step that the
-- goroutine cannot make changes nothing.
pub mod Goes
pub mod Logs
pub mod Writing
pub mod Batches
mod Tests
use t2d.Base.{
  ℕ, ◌+◌, ◌/◌, List, [], ◌∷◌, ◌++◌, Bool, ◌&&◌, Option, none, some, length, ltb, leb, get_elem?,
  if◌then◌else◌,
}
use t2d.Base.Int.{ℤ, pos, pos_part, ltb_ℤ, leb_ℤ}
use t2d.Client.Ring.{UpstreamRing, UpstreamPacket, Poll, retry, done, pop, try_pop, inflight}
use t2d.Client.Ring.Window.{slot_data}
use t2d.Client.Upstream.{UpstreamLane, WriteResult, write_upstream_batch}
use t2d.Server.Writer.{Flush}
use t2d.Stats.{Stats}
use t2d.Client.Ring.System.{
  System, Event, acquires, fills, submits, closes, pops, tries, releases, step, start,
}

-- `upstreamBatchMaxPackets`, `upstreamBatchMaxBytes` and `upstreamBatchMaxDelay`.
pub record Limits : Type 0 where
  pub max_packets : ℤ
  pub max_bytes : ℤ
  pub max_delay : ℤ

-- For the number of packets in the ring. Half of the largest batch is only asked for where that is
-- positive.
pub adaptive_upstream_delay : Limits → ℕ → ℕ
adaptive_upstream_delay l pending =
    if leb_ℤ l.max_delay (pos 0)
    then 0
    else if leb_ℤ l.max_packets (pos pending)
    then 0
    else if leb (pos_part l.max_packets / 2) pending
    then pos_part l.max_delay / 4
    else if leb (pos_part l.max_packets / 4) pending
    then pos_part l.max_delay / 2
    else pos_part l.max_delay

-- Where the loop stands: in `pop`, in the `select` of the timer, in the inner loop, at `flush`, at the
-- `flush` before a return, behind the write of either one, where it releases the packets, or behind its
-- return.
pub data Place : Type 0 where
  popping : Place
  delaying : Place
  collecting : Place
  flushing : Place
  leaving : Place
  releasing : Place
  withdrawing : Place
  returned : Place

-- The batch stands in the system of the ring. `flushes` is no part of the program: what each call of
-- writeUpstreamBatch was given, with the connection on which it called WriteTo, or none.
pub record Writer : Type 0 where
  pub system : System
  pub lane : UpstreamLane
  pub stats : Stats
  pub place : Place
  pub batch_bytes : ℕ
  pub writev : List (List ℕ)
  pub flushes : List Flush

pub data WriteEvent : Type 0 where
  -- handleUpstreamWrites
  pops_first : WriteEvent
  times_out : WriteEvent
  sees_cancel : WriteEvent
  pops_more : WriteEvent
  writes_batch : WriteResult → WriteEvent
  gives_back : WriteEvent
  -- the goroutines that make and lose the lane's connection
  connects : ℕ → WriteEvent
  disconnects : WriteEvent
  -- the producer, and Client.Stop
  reserves : WriteEvent
  writes : List ℕ → WriteEvent
  sends : WriteEvent
  stops : WriteEvent

-- `len(packet.data)`
pub data_length : ℕ → UpstreamRing → ℕ
data_length i r = elim (get_elem? r.slots i) [ none ↦ 0 | some p ↦ p.data_len ]

abbrev pub has_room : Limits → Writer → Bool
has_room l w =
    ltb_ℤ (pos (length w.system.batch)) l.max_packets && ltb_ℤ (pos w.batch_bytes) l.max_bytes

-- The batch with the packet that a step of the ring has taken.
pub add_packet : ℕ → Event → Writer → Writer
unfolding data_length
add_packet i e w = record w {
  system = step w.system e;
  batch_bytes = w.batch_bytes + data_length i w.system.ring;
}

-- `delay > 0` sets the timer where the batch has room.
pub wait_or_collect : Limits → Writer → Writer
unfolding adaptive_upstream_delay
wait_or_collect l w =
    if has_room l w && ltb 0 (adaptive_upstream_delay l (inflight w.system.ring))
    then record w { place = delaying }
    else record w { place = collecting }

pub pop_first : Limits → Poll → Writer → Writer
unfolding wait_or_collect add_packet
pop_first l retry w = w
pop_first l (done none) w = record w { place = returned }
pop_first l (done (some i)) w = wait_or_collect l (add_packet i pops w)

pub pop_more : Option ℕ → Writer → Writer
unfolding add_packet
pop_more none w = record w { place = flushing }
pop_more (some i) w = add_packet i tries w

-- `for _, packet := range batch { writev = append(writev, packet.data) }`
pub append_data : List ℕ → UpstreamRing → List (List ℕ) → List (List ℕ)
append_data [] r writev = writev
append_data (i ∷ batch) r writev = append_data batch r (writev ++ (slot_data r.slots i ∷ []))

-- The front of `flush` on a batch that is not empty: `writev = writev[:0]`, the loop that fills it, and
-- writeUpstreamBatch, for what WriteTo returns if the lane has a connection. No other goroutine touches
-- the packets of the batch meanwhile. What WriteTo leaves in `writev` does not matter: the next flush
-- takes it back to no length.
pub write_batch : WriteResult → Place → Writer → Writer
unfolding append_data
write_batch r next w =
    let writev = append_data w.system.batch w.system.ring [] in
    let (lane, stats) = write_upstream_batch r (length w.system.batch) w.lane w.stats in
    record w {
      lane = lane;
      stats = stats;
      place = next;
      writev = writev;
      flushes = w.flushes ++ (record { to = w.lane.conn; frames = writev } ∷ []);
    }

-- `if len(batch) == 0 { return }`: then `flush` has nothing to release either.
pub flush : WriteResult → Place → List ℕ → Writer → Writer
unfolding write_batch
flush r next [] w = record w { place = next }
flush r next (i ∷ batch) w = write_batch r next w

pub write_at : WriteResult → Place → Writer → Writer
unfolding flush
write_at r flushing w = flush r releasing w.system.batch w
write_at r leaving w = flush r withdrawing w.system.batch w
write_at r p w = w

-- `lane.ring.release(packet)` of the next packet, and the end of `flush`.
pub release_next : List ℕ → Place → Writer → Writer
release_next [] next w = record w { place = next; batch_bytes = 0 }
release_next (i ∷ rest) next w = record w { system = step w.system releases }

abbrev pub produce : Event → Writer → Writer
produce e w = record w { system = step w.system e }

pub pop_at : Limits → Place → Writer → Writer
unfolding pop_first
pop_at l popping w = pop_first l (pop w.system.ring).1 w
pop_at l p w = w

-- `case <-t.C`
pub time_out_at : Place → Writer → Writer
time_out_at delaying w = record w { place = collecting }
time_out_at p w = w

-- `case <-c.ctx.Done()`
pub see_cancel_at : Place → Writer → Writer
see_cancel_at delaying w = record w { place = leaving }
see_cancel_at p w = w

-- A round of the inner loop.
pub pop_more_at : Limits → Place → Writer → Writer
unfolding pop_more
pop_more_at l collecting w =
    if has_room l w then pop_more (try_pop w.system.ring).1 w else record w { place = flushing }
pop_more_at l p w = w

pub give_back_at : Place → Writer → Writer
unfolding release_next
give_back_at releasing w = release_next w.system.batch popping w
give_back_at withdrawing w = release_next w.system.batch returned w
give_back_at p w = w

pub write_step : Limits → Writer → WriteEvent → Writer
unfolding pop_at time_out_at see_cancel_at pop_more_at write_at give_back_at
write_step l w pops_first = pop_at l w.place w
write_step l w times_out = time_out_at w.place w
write_step l w sees_cancel = see_cancel_at w.place w
write_step l w pops_more = pop_more_at l w.place w
write_step l w (writes_batch r) = write_at r w.place w
write_step l w gives_back = give_back_at w.place w
write_step l w (connects c) = record w { lane = record w.lane { conn = some c } }
write_step l w disconnects = record w { lane = record w.lane { conn = none } }
write_step l w reserves = produce acquires w
write_step l w (writes bytes) = produce (fills bytes) w
write_step l w sends = produce submits w
write_step l w stops = produce closes w

pub write_run : Limits → Writer → List WriteEvent → Writer
write_run l w [] = w
write_run l w (e ∷ es) = write_run l (write_step l w e) es

pub start_writer : UpstreamRing → UpstreamLane → Stats → Writer
start_writer r lane stats = record {
  system = start r;
  lane = lane;
  stats = stats;
  place = popping;
  batch_bytes = 0;
  writev = [];
  flushes = [];
}
