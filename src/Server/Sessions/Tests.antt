-- ===== src/Server/Sessions/Tests.antt =====
-- Two sessions whose packets arrive out of order; one expires and comes back.
use t2d.Base.{
  ℕ, ◌<◌, ◌≡◌, refl, List, [], ◌∷◌, map, Bool, true, false, arith, subst, All, Result, ok, err,
}
use t2d.Base.Int.{pos}
use t2d.Protocol.Packet.{new_data_packet}
use t2d.Server.Reorder.Ready.{Ascends, last_seq}
use t2d.Stats.{new}
use t2d.Server.Sessions.{Event, arrives, read_fails, ticks, run, new_table}
use t2d.Server.Sessions.Order.{IsTagged, run-new_table-Ascends}
use t2d.Server.Sessions.Count.{Counted}
use t2d.Server.Sessions.Count.Run.{run-new_table-Counted}

abbrev all_written : List (List ℕ) → List ℕ → Bool
all_written sent p = true

abbrev first_byte : List ℕ → ℕ
first_byte [] = 0
first_byte (x ∷ xs) = x

-- A cipher that takes off one byte.
abbrev unwrap : List ℕ → Result ℕ (List ℕ)
unwrap [] = err 0
unwrap (x ∷ xs) = ok xs

abbrev packet : ℕ → ℕ → ℕ → Event
unfolding new_data_packet
packet sid seq now = arrives true (new_data_packet sid seq 3) (0xee ∷ seq ∷ sid ∷ []) now

abbrev history : List Event
unfolding packet
history =
    packet 7 1 10
    ∷ packet 8 5 11
    ∷ packet 7 3 12
    ∷ packet 7 2 13
    ∷ packet 8 4 14
    ∷ ticks (pos 100) 120
    ∷ packet 7 9 130
    ∷ read_fails false 0
    ∷ packet 7 11 131
    ∷ []

-- Which of the test's packets obey the client's numbering.
packet-IsTagged :
    (sid seq now : ℕ)
    → seq < last_seq
    → IsTagged first_byte all_written (pos 4) (pos 50) unwrap (packet sid seq now)
unfolding packet new_data_packet
packet-IsTagged sid seq now small payload e =
    let same : seq ∷ sid ∷ [] ≡ payload = cc in
    (subst (λ (x : List ℕ). first_byte x ≡ seq) same refl, small)

run-new_table-Ascends_example :
    (hi : ℕ) × Ascends 0
      (map first_byte
        ((run all_written true (pos 4) (pos 50) unwrap (new_table (new 0)) history).objects 0).sent)
      hi
unfolding history
run-new_table-Ascends_example =
    run-new_table-Ascends first_byte all_written (pos 4) (pos 50) unwrap (new 0) history
      (
        packet-IsTagged 7 1 10 (omega arith),
        (packet-IsTagged 8 5 11 (omega arith), (packet-IsTagged 7 3 12 (omega arith), later)),
      )
      0
  where
    later : All (IsTagged first_byte all_written (pos 4) (pos 50) unwrap) (
        packet 7 2 13
        ∷ packet 8 4 14
        ∷ ticks (pos 100) 120
        ∷ packet 7 9 130
        ∷ read_fails false 0
        ∷ packet 7 11 131
        ∷ [])
    later = (
      packet-IsTagged 7 2 13 (omega arith),
      (
        packet-IsTagged 8 4 14 (omega arith),
        (
          tt,
          (
            packet-IsTagged 7 9 130 (omega arith),
            (tt, (packet-IsTagged 7 11 131 (omega arith), tt)),
          ),
        ),
      ),
    )

run-new_table-Counted_example :
    Counted (run all_written true (pos 4) (pos 50) unwrap (new_table (new 0)) history)
unfolding history
run-new_table-Counted_example =
    run-new_table-Counted all_written true (pos 4) (pos 50) unwrap 0 history (omega arith)
