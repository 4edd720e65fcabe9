-- ===== src/Client/Downlink.antt =====
-- internal/client/client.go, manageDownstreamConnection and the set-up and tear-down of
-- handleDownstream: the goroutine that makes and reads the connection of a downstream lane, and the
-- others that may close it. A schedule is a list of their steps; a step that its goroutine cannot make
-- changes nothing.
pub mod Served
mod Tests
use t2d.Base.{
  ℕ, ◌+◌, ◌-◌, List, [], ◌∷◌, Bool, true, false, Option, none, some, ◌==◌, if◌then◌else◌,
}
use t2d.Client.LaneControl.{DownstreamLane}
use t2d.Stats
use t2d.Stats.{Stats}

-- Where the manager stands: at the head of its loop, in the `select` of a lane that has a connection, in
-- dialTCP, in waitReconnectDelay, behind `lane.conn = conn`, in registerAllSessionsForLane, in the loop
-- of handleDownstream, in its deferred call before the token is sent, or behind its return.
pub data Manager : Type 0 where
  checking : Manager
  waiting : Manager
  dialing : Manager
  backing_off : Manager
  connected : ℕ → Manager
  registering : ℕ → Manager
  serving : ℕ → Manager
  notifying : Manager
  returned : Manager

-- `looping` says that the control loop that was started for the connection at hand has not returned,
-- `ending` how many of earlier connections have not, whose `done` is closed.
pub record System : Type 0 where
  pub lane : DownstreamLane
  pub stats : Stats
  pub cancelled : Bool
  pub manager : Manager
  pub attempt : ℕ
  pub looping : Bool
  pub ending : ℕ

pub data Event : Type 0 where
  -- manageDownstreamConnection
  checks : Event
  wakes : Event
  times_out : Event
  sees_cancel : Event
  dial_fails : Event
  dials : ℕ → Event
  drains : Event
  registers : Event
  -- handleDownstream: a read that fails, with an error that counts or without, and what is deferred
  read_fails : Bool → Event
  notifies : Event
  -- downstreamControlLoop of the connection at hand, and of an earlier one
  loop_sees_cancel : Event
  loop_sees_done : Event
  -- sendLaneControl of any goroutine whose write fails, and Client.Stop
  control_fails : Event
  cancels : Event
  stops : Event

abbrev move : Manager → System → System
move m s = record s { manager = m }

pub set_conn : Option ℕ → System → System
set_conn c s = record s { lane = record s.lane { conn = c } }

pub set_token : Bool → System → System
set_token t s = record s { lane = record s.lane { reconnect = t } }

-- `for c.ctx.Err() == nil { if c.getDownstreamConn(lane) != nil { … } … }`
pub check : Manager → System → System
check checking s =
    if s.cancelled
    then move returned s
    else elim s.lane.conn [ none ↦ move dialing s | some c ↦ move waiting s ]
check m s = s

-- `case <-lane.reconnect` and `case <-wake`
pub take_token : System → System
unfolding set_token
take_token s = if s.lane.reconnect then move checking (set_token false s) else s

pub wake : Manager → System → System
unfolding take_token
wake waiting s = take_token s
wake backing_off s = take_token s
wake m s = s

pub time_out : Manager → System → System
time_out backing_off s = move checking s
time_out m s = s

-- `if lane.conn == conn { lane.conn = nil }`
pub clear_lane : ℕ → Option ℕ → System → System
unfolding set_conn
clear_lane c none s = s
clear_lane c (some d) s = if d == c then set_conn none s else s

-- `defer close(done)`: the control loop is told to end, if it has not returned.
pub close_done : System → System
close_done s = if s.looping then record s { looping = false; ending = s.ending + 1 } else s

-- `defer func() { conn.Close(); … }()` and `defer close(done)`, up to the token.
pub tear_down : ℕ → System → System
unfolding clear_lane close_done
tear_down c s = move notifying (close_done (clear_lane c s.lane.conn s))

-- `case <-c.ctx.Done()`
pub see_cancel : Manager → System → System
unfolding tear_down
see_cancel waiting s = if s.cancelled then move returned s else s
see_cancel backing_off s = if s.cancelled then move returned s else s
see_cancel (serving c) s = if s.cancelled then tear_down c s else s
see_cancel m s = s

pub fail_dial : Manager → System → System
fail_dial dialing s = record s { manager = backing_off; attempt = s.attempt + 1 }
fail_dial m s = s

-- `attempt = 0` and `lane.conn = conn`
pub dial : ℕ → Manager → System → System
unfolding set_conn
dial c dialing s = move (connected c) (set_conn (some c) (record s { attempt = 0 }))
dial c m s = s

pub drain : Manager → System → System
unfolding set_token
drain (connected c) s = move (registering c) (set_token false s)
drain m s = s

-- registerAllSessionsForLane has returned; `go c.downstreamControlLoop(lane, conn, done)`.
pub register : Manager → System → System
register (registering c) s = move (serving c) (record s { looping = true })
register m s = s

pub fail_read : Bool → Manager → System → System
unfolding tear_down
fail_read counts (serving c) s =
    tear_down c (record s { stats = if counts then Stats.add_error s.stats else s.stats })
fail_read counts m s = s

-- `case <-c.ctx.Done(): return` of downstreamControlLoop
pub end_cancelled_loop : System → System
end_cancelled_loop s = if s.cancelled then record s { looping = false } else s

-- A control loop whose `done` is closed returns.
pub end_done_loop : System → System
end_done_loop s = record s { ending = s.ending - 1 }

-- `c.notifyReconnect(lane.reconnect)` of the deferred call.
pub notify : Manager → System → System
unfolding set_token
notify notifying s = move checking (set_token true s)
notify m s = s

-- `if _, err := lane.conn.Write(frame); err != nil { … }`
pub fail_control : Option ℕ → System → System
unfolding set_conn set_token
fail_control none s = s
fail_control (some c) s =
    set_token true (set_conn none (record s { stats = Stats.add_error s.stats }))

-- `lane.conn.Close(); lane.conn = nil` of Stop, which has cancelled the context before.
pub stop : System → System
unfolding set_conn
stop s = if s.cancelled then set_conn none s else s

pub step : System → Event → System
unfolding check wake time_out see_cancel fail_dial dial drain register fail_read notify
    end_cancelled_loop end_done_loop fail_control stop
step s checks = check s.manager s
step s wakes = wake s.manager s
step s times_out = time_out s.manager s
step s sees_cancel = see_cancel s.manager s
step s dial_fails = fail_dial s.manager s
step s (dials c) = dial c s.manager s
step s drains = drain s.manager s
step s registers = register s.manager s
step s (read_fails counts) = fail_read counts s.manager s
step s notifies = notify s.manager s
step s loop_sees_cancel = end_cancelled_loop s
step s loop_sees_done = end_done_loop s
step s control_fails = fail_control s.lane.conn s
step s cancels = record s { cancelled = true }
step s stops = stop s

pub run : System → List Event → System
run s [] = s
run s (e ∷ es) = run (step s e) es

pub start : ℕ → Stats → System
start id stats = record {
  lane = record { id = id; conn = none; reconnect = false };
  stats = stats;
  cancelled = false;
  manager = checking;
  attempt = 0;
  looping = false;
  ending = 0;
}
