-- ===== src/Client/Downlink/Tests.antt =====
-- A lane that connects, loses its connection to a control message that cannot be written, and connects
-- again, and whose control loop returns when the client is stopped.
use t2d.Base.{ℕ, ◌≤◌, ◌≡◌, length, refl, List, [], ◌∷◌, ◌++◌, true, false, some, All}
use t2d.Stats.{new}
use t2d.Client.Downlink.{
  Event, checks, dials, drains, registers, read_fails, notifies, control_fails, cancels,
  loop_sees_cancel, loop_sees_done, dialing, step, run, start,
}
use t2d.Client.Downlink.Served.{
  at_work, LoopsWhileServing, is_waiting, is_internal, run-at_work, run-dials_again,
}

abbrev connects : ℕ → List Event
connects c = checks ∷ dials c ∷ drains ∷ registers ∷ []

abbrev lost : List Event
lost = connects 5 ++ (control_fails ∷ [])

abbrev back : List Event
back =
    lost
    ++ (read_fails true ∷ notifies ∷ connects 6
        ++ (loop_sees_done ∷ cancels ∷ loop_sees_cancel ∷ []))

run-at_work_example :
    let s = run (start 1 (new 0)) back in
    (at_work s.manager ≡ some 6) × LoopsWhileServing s × (is_waiting s.manager ≡ false)
unfolding run step start
run-at_work_example = run-at_work 1 (new 0) back 6 refl

run-dials_again_example :
    (more : List Event) × All (λ e. is_internal e ≡ true) more
    × (length more ≤ 5)
    × ((run (run (start 1 (new 0)) lost) more).manager ≡ dialing)
unfolding run step start
run-dials_again_example = run-dials_again 1 (new 0) lost refl refl
