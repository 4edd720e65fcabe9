-- ===== src/Client/Ring/System/Tests.antt =====
-- A ring of four slots, and schedules of its producer and its consumer.
use t2d.Base.{ℕ, ◌≡◌, ◌≢◌, ◌≤◌, ◌<◌, ◌^◌, refl, List, [], ◌∷◌, arith, All}
use t2d.Base.Int.{pos}
use t2d.Client.Ring.{
  new_upstream_ring, next_power_of_two, double_until, acquire, submit, pop, try_pop, take_next,
  release, discard, close, update_slot, clear_data,
}
use t2d.Client.Ring.Size.{next_power_of_two_lem}
use t2d.Client.Ring.System.{
  Event, acquires, fills, submits, pops, tries, releases, closes, run, start, step, reserve,
  reserve_poll, with_writing, fill, fill_packet, send, collect, collect_poll, pop_into, give_back,
}
use t2d.Client.Ring.System.Order.{InOrder, run-InOrder, run-Exclusive}

-- Two packets pass, a third is too large, a fourth comes after the ring is closed.
abbrev schedule : List Event
schedule =
    acquires
    ∷ fills (1 ∷ 2 ∷ [])
    ∷ submits
    ∷ pops
    ∷ acquires
    ∷ fills (3 ∷ [])
    ∷ submits
    ∷ tries
    ∷ releases
    ∷ acquires
    ∷ fills (1 ∷ 2 ∷ 3 ∷ 4 ∷ 5 ∷ [])
    ∷ acquires
    ∷ fills (9 ∷ [])
    ∷ closes
    ∷ submits
    ∷ releases
    ∷ pops
    ∷ []

run-InOrder_example : InOrder (run (start (new_upstream_ring (pos 3) 4)) schedule)
run-InOrder_example = run-InOrder (pos 3) 4 schedule (omega arith)

-- The consumer holds the first packet while the producer fills the second.
abbrev overlap : List Event
overlap = acquires ∷ fills (1 ∷ 2 ∷ []) ∷ submits ∷ pops ∷ acquires ∷ fills (3 ∷ []) ∷ []

run-Exclusive_example : All (λ j. j ≢ 1) (run (start (new_upstream_ring (pos 3) 4)) overlap).batch
unfolding run step reserve reserve_poll with_writing fill fill_packet send collect collect_poll
    pop_into start new_upstream_ring next_power_of_two double_until acquire submit pop take_next
    update_slot clear_data
run-Exclusive_example = run-Exclusive (pos 3) 4 overlap 1 (omega arith) refl

-- What the whole schedule has handed to the connection.
schedule_written :
    (run (start (new_upstream_ring (pos 3) 4)) schedule).given_back ≡ (1 ∷ 2 ∷ []) ∷ (3 ∷ []) ∷ []
unfolding run step reserve reserve_poll with_writing fill fill_packet send collect collect_poll
    pop_into start new_upstream_ring next_power_of_two double_until acquire submit pop try_pop
    take_next update_slot clear_data give_back release discard close
schedule_written = refl

next_power_of_two_lem_example :
    (j : ℕ) × (next_power_of_two 5 ≡ 2 ^ j) × (5 ≤ next_power_of_two 5) × (next_power_of_two 5 < 10)
next_power_of_two_lem_example = next_power_of_two_lem 5 (omega arith) (omega arith)
