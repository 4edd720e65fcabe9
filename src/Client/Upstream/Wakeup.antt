-- ===== src/Client/Upstream/Wakeup.antt =====
-- internal/client/client.go, manageUpstreamConnection: what follows the loss of a connection.
use t2d.Base.{
  ℕ, ◌≤◌, ◌≡◌, length, refl, List, [], ◌∷◌, Bool, ◌&&◌, not, true, false, Option, none, some, arith,
  All, ◌==◌,
}
use t2d.Stats.{Stats}
use t2d.Client.Upstream.{
  System, Manager, Event, checking, waiting, dialing, backing_off, connected, returned, checks,
  wakes, times_out, sees_cancel, dial_fails, dials, drains, read_returns, notifies, writes, cancels,
  step, run, start,
}

abbrev is_waiting : Manager → Bool
is_waiting waiting = true
is_waiting m = false

abbrev is_returned : Manager → Bool
is_returned returned = true
is_returned m = false

abbrev is_none : Option ℕ → Bool
is_none none = true
is_none (some c) = false

-- The manager waits on a lane with no connection, and no token is there or to come.
abbrev stuck : System → Bool
stuck s =
    is_waiting s.manager && (is_none s.lane.conn && (not s.lane.reconnect && (s.notifying == 0)))

record Inv (s : System) : Type 0 where
  awake : stuck s ≡ false
  done : (is_returned s.manager && not s.cancelled) ≡ false

start-Inv : (stats : Stats) → Inv (start stats)
unfolding start
start-Inv stats = record { awake = refl; done = refl }

step-Inv : (e : Event) (s : System) → Inv s → Inv (step s e)
unfolding step
step-Inv checks s v = ground arith
step-Inv wakes s v = ground arith
step-Inv times_out s v = ground arith
step-Inv sees_cancel s v = ground arith
step-Inv dial_fails s v = ground arith
step-Inv (dials c) s v = ground arith
step-Inv drains s v = ground arith
step-Inv (read_returns c) s v = ground arith
step-Inv notifies s v = ground arith
step-Inv (writes r n) s v = ground arith
step-Inv cancels s v = ground arith

run-Inv : (es : List Event) (s : System) → Inv s → Inv (run s es)
unfolding run
run-Inv [] s v = v
run-Inv (e ∷ es) s v = run-Inv es (step s e) (step-Inv e s v)

-- The steps that need nothing from outside: the manager's own but a dial, and the token of a watcher
-- that has closed the connection.
abbrev pub is_internal : Event → Bool
is_internal checks = true
is_internal wakes = true
is_internal times_out = true
is_internal drains = true
is_internal notifies = true
is_internal e = false

abbrev recovery : Manager → Bool → List Event
recovery checking token = checks ∷ []
recovery waiting true = wakes ∷ checks ∷ []
recovery waiting false = notifies ∷ wakes ∷ checks ∷ []
recovery backing_off token = times_out ∷ checks ∷ []
recovery connected token = drains ∷ checks ∷ []
recovery dialing token = []
recovery returned token = []

recovery-is_internal :
    (m : Manager) (token : Bool)
    → All (λ e. is_internal e ≡ true) (recovery m token) × (length (recovery m token) ≤ 3)
recovery-is_internal checking token = ((refl, tt), omega arith)
recovery-is_internal waiting true = ((refl, (refl, tt)), omega arith)
recovery-is_internal waiting false = ((refl, (refl, (refl, tt))), omega arith)
recovery-is_internal backing_off token = ((refl, (refl, tt)), omega arith)
recovery-is_internal connected token = ((refl, (refl, tt)), omega arith)
recovery-is_internal dialing token = (tt, omega arith)
recovery-is_internal returned token = (tt, omega arith)

recovers :
    (s : System)
    → Inv s
    → s.cancelled ≡ false
    → s.lane.conn ≡ none
    → (run s (recovery s.manager s.lane.reconnect)).manager ≡ dialing
unfolding run step
recovers s v live lost = ground arith

-- After any schedule of the lane's goroutines, with writes that fail or not and connections that the
-- server closes at any time: if the client has not been stopped and the lane has no connection, at
-- most three steps that need nothing from outside bring the manager to dialling. So no loss of a
-- connection goes unnoticed.
pub run-redials :
    (stats : Stats) (es : List Event)
    → (run (start stats) es).cancelled ≡ false
    → (run (start stats) es).lane.conn ≡ none
    → (more : List Event) × All (λ e. is_internal e ≡ true) more
      × (length more ≤ 3)
      × ((run (run (start stats) es) more).manager ≡ dialing)
run-redials stats es live lost =
    let s = run (start stats) es in
    let (own, short) = recovery-is_internal s.manager s.lane.reconnect in
    (
      recovery s.manager s.lane.reconnect,
      own,
      short,
      recovers s (run-Inv es (start stats) (start-Inv stats)) live lost,
    )
