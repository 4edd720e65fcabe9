-- ===== src/Client/Downlink/Served.antt =====
-- internal/client/client.go, manageDownstreamConnection: a lane's connection is read, and its loss is
-- followed by another dial.
use t2d.Base.{
  ℕ, ◌≤◌, ◌≡◌, length, refl, List, [], ◌∷◌, Bool, ◌&&◌, not, true, false, Option, none, some, arith,
  All, ◌==◌, Bool-cases, ◌⊎◌, inl, inr,
}
use t2d.Stats.{Stats}
use t2d.Client.Downlink.{
  System, Manager, Event, checking, waiting, dialing, backing_off, connected, registering, serving,
  notifying, returned, checks, wakes, times_out, sees_cancel, dial_fails, dials, drains, registers,
  read_fails, notifies, loop_sees_cancel, loop_sees_done, control_fails, cancels, stops, step, run,
  start,
}

-- The connection that the manager makes ready or reads.
abbrev pub at_work : Manager → Option ℕ
at_work (connected c) = some c
at_work (registering c) = some c
at_work (serving c) = some c
at_work m = none

abbrev is_at : ℕ → Option ℕ → Bool
is_at c none = false
is_at c (some d) = d == c

-- The lane has no other connection.
abbrev is_kept : Option ℕ → Manager → Bool
is_kept none m = true
is_kept (some c) m = is_at c (at_work m)

abbrev pub is_waiting : Manager → Bool
is_waiting waiting = true
is_waiting m = false

abbrev is_returned : Manager → Bool
is_returned returned = true
is_returned m = false

abbrev pub is_serving : Manager → Bool
is_serving (serving c) = true
is_serving m = false

record Inv (s : System) : Type 0 where
  kept : is_kept s.lane.conn s.manager ≡ true
  busy : is_waiting s.manager ≡ false
  done : (is_returned s.manager && not s.cancelled) ≡ false
  started : (is_serving s.manager && (not s.looping && not s.cancelled)) ≡ false
  alone : (s.looping && not (is_serving s.manager)) ≡ false

start-Inv : (id : ℕ) (stats : Stats) → Inv (start id stats)
unfolding start
start-Inv id stats = record { kept = refl; busy = refl; done = refl; started = refl; alone = refl }

step-Inv : (e : Event) (s : System) → Inv s → Inv (step s e)
unfolding step
step-Inv checks s v = ground arith
step-Inv wakes s v = ground arith
step-Inv times_out s v = ground arith
step-Inv sees_cancel s v = ground arith
step-Inv dial_fails s v = ground arith
step-Inv (dials c) s v = ground arith
step-Inv drains s v = ground arith
step-Inv registers s v = ground arith
step-Inv (read_fails counts) s v = ground arith
step-Inv notifies s v = ground arith
step-Inv loop_sees_cancel s v = ground arith
step-Inv loop_sees_done s v = ground arith
step-Inv control_fails s v = ground arith
step-Inv cancels s v = ground arith
step-Inv stops s v = ground arith

run-Inv : (es : List Event) (s : System) → Inv s → Inv (run s es)
unfolding run
run-Inv [] s v = v
run-Inv (e ∷ es) s v = run-Inv es (step s e) (step-Inv e s v)

kept-at_work : (c : ℕ) (s : System) → Inv s → s.lane.conn ≡ some c → at_work s.manager ≡ some c
kept-at_work c s v e = ground (arith, v.kept, e)

-- The control loop of the connection at hand runs just while handleDownstream does, or it has returned
-- since the client was stopped.
abbrev pub LoopsWhileServing : System → Type 0
LoopsWhileServing s =
    (s.looping ≡ is_serving s.manager) ⊎ ((s.cancelled ≡ true) × (s.looping ≡ false))

Inv-LoopsWhileServing : (s : System) → Inv s → LoopsWhileServing s
Inv-LoopsWhileServing s v = elim (Bool-cases s.looping) [
  | inl runs ↦ inl (ground (arith, v.alone, runs))
  | inr not_running ↦ elim (Bool-cases s.cancelled) [
    | inl stopped ↦ inr (stopped, not_running)
    | inr live ↦ inl (ground (arith, v.started, not_running, live))
  ]
]

-- After any schedule of a downstream lane's goroutines, with dials and reads that fail or not, control
-- messages whose write fails, and a client that is stopped at any time, which the manager, the control
-- loop and Stop each come to in their own steps: a connection that the lane has is the one that the
-- manager makes ready or reads; its control loop runs just while it is read, unless the client was
-- stopped and the control loop has returned on that; and the manager is not in the `select` of a lane
-- that has a connection.
pub run-at_work :
    (id : ℕ) (stats : Stats) (es : List Event) (c : ℕ)
    → (run (start id stats) es).lane.conn ≡ some c
    → let s = run (start id stats) es in
      (at_work s.manager ≡ some c) × LoopsWhileServing s × (is_waiting s.manager ≡ false)
run-at_work id stats es c e =
    let v = run-Inv es (start id stats) (start-Inv id stats) in
    (
      kept-at_work c (run (start id stats) es) v e,
      Inv-LoopsWhileServing (run (start id stats) es) v,
      v.busy,
    )

-- The steps that need nothing from outside where the lane's connection is closed: the read of a closed
-- connection fails.
abbrev pub is_internal : Event → Bool
is_internal checks = true
is_internal times_out = true
is_internal drains = true
is_internal registers = true
is_internal (read_fails counts) = true
is_internal notifies = true
is_internal e = false

abbrev recovery : Manager → List Event
recovery checking = checks ∷ []
recovery waiting = []
recovery dialing = []
recovery backing_off = times_out ∷ checks ∷ []
recovery (connected c) = drains ∷ registers ∷ read_fails false ∷ notifies ∷ checks ∷ []
recovery (registering c) = registers ∷ read_fails false ∷ notifies ∷ checks ∷ []
recovery (serving c) = read_fails false ∷ notifies ∷ checks ∷ []
recovery notifying = notifies ∷ checks ∷ []
recovery returned = []

recovery-is_internal :
    (m : Manager) → All (λ e. is_internal e ≡ true) (recovery m) × (length (recovery m) ≤ 5)
recovery-is_internal checking = ground arith
recovery-is_internal waiting = ground arith
recovery-is_internal dialing = ground arith
recovery-is_internal backing_off = ground arith
recovery-is_internal (connected c) = ground arith
recovery-is_internal (registering c) = ground arith
recovery-is_internal (serving c) = ground arith
recovery-is_internal notifying = ground arith
recovery-is_internal returned = ground arith

recovers :
    (s : System)
    → Inv s
    → s.cancelled ≡ false
    → s.lane.conn ≡ none
    → (run s (recovery s.manager)).manager ≡ dialing
unfolding run step
recovers s v live lost = ground arith

-- After any such schedule: if the client has not been stopped and the lane has no connection, at most
-- five steps that need nothing from outside bring the manager to dialling.
pub run-dials_again :
    (id : ℕ) (stats : Stats) (es : List Event)
    → (run (start id stats) es).cancelled ≡ false
    → (run (start id stats) es).lane.conn ≡ none
    → (more : List Event) × All (λ e. is_internal e ≡ true) more
      × (length more ≤ 5)
      × ((run (run (start id stats) es) more).manager ≡ dialing)
run-dials_again id stats es live lost =
    let s = run (start id stats) es in
    let (own, short) = recovery-is_internal s.manager in
    (
      recovery s.manager,
      own,
      short,
      recovers s (run-Inv es (start id stats) (start-Inv id stats)) live lost,
    )
