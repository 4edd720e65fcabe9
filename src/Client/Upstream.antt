-- ===== src/Client/Upstream.antt =====
-- internal/client/client.go, manageUpstreamConnection, watchUpstreamConn and writeUpstreamBatch: the
-- goroutines that make, lose and use the connection of an upstream lane. A schedule is a list of their
-- steps; a step that its goroutine cannot make changes nothing.
pub mod Wakeup
mod Tests
use t2d.Base.{
  ℕ, ◌+◌, ◌-◌, List, [], ◌∷◌, ◌++◌, Bool, true, false, Option, none, some, ltb, ◌==◌, if◌then◌else◌,
}
use t2d.Stats
use t2d.Stats.{Stats}

-- `upstreamLane`, without its ring: a connection is named by a number, and the channel `reconnect`
-- holds one token or none.
pub record UpstreamLane : Type 0 where
  pub conn : Option ℕ
  pub reconnect : Bool

pub notify_reconnect : UpstreamLane → UpstreamLane
notify_reconnect lane = record lane { reconnect = true }

pub drain_reconnect : UpstreamLane → UpstreamLane
drain_reconnect lane = record lane { reconnect = false }

-- What `buffers.WriteTo` returns: the bytes written, and whether there is an error.
pub record WriteResult : Type 0 where
  pub written : ℕ
  pub failed : Bool

pub write_to : WriteResult → ℕ → UpstreamLane → Stats → UpstreamLane × Stats
unfolding notify_reconnect
write_to r packet_count lane stats =
    let counted = if ltb 0 r.written then Stats.add_bytes_sent r.written stats else stats in
    if r.failed
    then (notify_reconnect (record lane { conn = none }), Stats.add_error counted)
    else (lane, Stats.add_packets_sent packet_count counted)

pub write_upstream_batch : WriteResult → ℕ → UpstreamLane → Stats → UpstreamLane × Stats
unfolding write_to
write_upstream_batch r packet_count lane stats = elim lane.conn [
  | none ↦ (lane, Stats.add_error stats)
  | some c ↦ write_to r packet_count lane stats
]

pub is_conn : ℕ → Option ℕ → Bool
is_conn c none = false
is_conn c (some d) = d == c

-- `if lane.conn == conn { lane.conn.Close(); lane.conn = nil }`
pub close_if_current : ℕ → UpstreamLane → UpstreamLane
unfolding is_conn
close_if_current c lane = if is_conn c lane.conn then record lane { conn = none } else lane

-- Where manageUpstreamConnection stands: at the head of its loop, in the `select` of a lane that has
-- a connection, in dialTCP, in waitReconnectDelay, between setting the connection and the end of the
-- round, or behind its return.
pub data Manager : Type 0 where
  checking : Manager
  waiting : Manager
  dialing : Manager
  backing_off : Manager
  connected : Manager
  returned : Manager

-- `watched` are the connections whose watchUpstreamConn still reads, `notifying` the number of those
-- that have closed the lane and have yet to send the token.
pub record System : Type 0 where
  pub lane : UpstreamLane
  pub stats : Stats
  pub cancelled : Bool
  pub manager : Manager
  pub attempt : ℕ
  pub watched : List ℕ
  pub notifying : ℕ

pub data Event : Type 0 where
  -- manageUpstreamConnection
  checks : Event
  wakes : Event
  times_out : Event
  sees_cancel : Event
  dial_fails : Event
  dials : ℕ → Event
  drains : Event
  -- watchUpstreamConn
  read_returns : ℕ → Event
  notifies : Event
  -- the lane's writer, and Client.Stop
  writes : WriteResult → ℕ → Event
  cancels : Event

abbrev pub move : Manager → System → System
move m s = record s { manager = m }

-- `for c.ctx.Err() == nil { if c.getUpstreamConn(lane) != nil { … } … }`
pub check : Manager → System → System
check checking s =
    if s.cancelled
    then move returned s
    else elim s.lane.conn [ none ↦ move dialing s | some c ↦ move waiting s ]
check m s = s

abbrev pub take_token : System → System
take_token s =
    if s.lane.reconnect
    then record s { lane = record s.lane { reconnect = false }; manager = checking }
    else s

-- `case <-lane.reconnect` and `case <-wake`
pub wake : Manager → System → System
wake waiting s = take_token s
wake backing_off s = take_token s
wake m s = s

-- `case <-timer.C`, or a delay that is not positive
pub time_out : Manager → System → System
time_out backing_off s = move checking s
time_out m s = s

-- `case <-c.ctx.Done()`
pub see_cancel : Manager → System → System
see_cancel waiting s = if s.cancelled then move returned s else s
see_cancel backing_off s = if s.cancelled then move returned s else s
see_cancel m s = s

pub fail_dial : Manager → System → System
fail_dial dialing s = record s { manager = backing_off; attempt = s.attempt + 1 }
fail_dial m s = s

-- `attempt = 0`, `lane.conn = conn` and `go c.watchUpstreamConn(lane, conn)`
pub dial : ℕ → Manager → System → System
dial c dialing s = record s {
  manager = connected;
  attempt = 0;
  lane = record s.lane { conn = some c };
  watched = c ∷ s.watched;
}
dial c m s = s

pub drain_channel : Manager → System → System
unfolding drain_reconnect
drain_channel connected s = record s { manager = checking; lane = drain_reconnect s.lane }
drain_channel m s = s

pub is_watched : ℕ → List ℕ → Bool
is_watched c [] = false
is_watched c (d ∷ ds) = let rest = is_watched c ds in if d == c then true else rest

pub unwatch : ℕ → List ℕ → List ℕ
unwatch c [] = []
unwatch c (d ∷ ds) = let rest = unwatch c ds in if d == c then ds else d ∷ rest

-- The read of a watcher returns: it gives up if the context is done, and otherwise closes the lane's
-- connection where that is still its own, and sends the token after it has left the lock.
pub read_return : ℕ → System → System
unfolding is_watched unwatch close_if_current
read_return c s =
    let left = record s { watched = unwatch c s.watched } in
    if is_watched c s.watched
    then if s.cancelled
      then left
      else record left { lane = close_if_current c s.lane; notifying = s.notifying + 1 }
    else s

pub notify : System → System
unfolding notify_reconnect
notify s =
    if ltb 0 s.notifying
    then record s { lane = notify_reconnect s.lane; notifying = s.notifying - 1 }
    else s

pub step : System → Event → System
unfolding check wake time_out see_cancel fail_dial dial drain_channel read_return notify
    write_upstream_batch
step s checks = check s.manager s
step s wakes = wake s.manager s
step s times_out = time_out s.manager s
step s sees_cancel = see_cancel s.manager s
step s dial_fails = fail_dial s.manager s
step s (dials c) = dial c s.manager s
step s drains = drain_channel s.manager s
step s (read_returns c) = read_return c s
step s notifies = notify s
step s (writes r n) =
    let (lane, stats) = write_upstream_batch r n s.lane s.stats in
    record s { lane = lane; stats = stats }
step s cancels = record s { cancelled = true }

pub run : System → List Event → System
run s [] = s
run s (e ∷ es) = run (step s e) es

pub start : Stats → System
start stats = record {
  lane = record { conn = none; reconnect = false };
  stats = stats;
  cancelled = false;
  manager = checking;
  attempt = 0;
  watched = [];
  notifying = 0;
}
