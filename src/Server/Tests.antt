-- ===== src/Server/Tests.antt =====
-- A session whose packets come out of order over three lanes.
use mathlib.Core.List.{Memᴰ}
use mathlib.Core.List.Memᴰ
use t2d.Base.{
  ℕ, ◌+◌, ◌≤◌, ◌<◌, ◌≡◌, ◌==◌, Bool-cases, inl, inr, All, refl, List, [], ◌∷◌, map, Bool, true,
  arith, length,
}
use t2d.Base.Int.{pos}
use t2d.Stats.{new}
use t2d.Server.Reorder.{fresh_state, Arrival, reorder_all}
use t2d.Server.Reorder.Ready.{Ascends}
use t2d.Server.Reorder.Order.{reorder_all-Ascends}
use t2d.Server.Reorder.Delivery.{reorder_all-payloads}
use t2d.Server.Reorder.Bound.{reorder_all-pending_bound}

abbrev all_written : List (List ℕ) → List ℕ → Bool
all_written sent p = true

-- The number that a payload was sent under, which these payloads begin with.
abbrev first_byte : List ℕ → ℕ
first_byte [] = 0
first_byte (x ∷ _) = x

abbrev arrival : ℕ → ℕ → Arrival
arrival seq now = record { seq = seq; payload = seq ∷ 0xff ∷ []; now = now }

-- 7 waits for 6; 6 comes twice; 9 and 10 fill the window of two while 8 is missing; 8 comes late; 30
-- is beyond the window.
abbrev arrivals : List Arrival
arrivals =
    arrival 5 0
    ∷ arrival 7 1
    ∷ arrival 6 2
    ∷ arrival 6 3
    ∷ arrival 9 4
    ∷ arrival 10 5
    ∷ arrival 8 6
    ∷ arrival 30 7
    ∷ []

reorder_all-Ascends_example :
    let (st, b) =
      reorder_all all_written
        (pos 2)
        (pos 100)
        (fresh_state, record { sent = []; stats = new 0 })
        arrivals in
    Ascends 0 (map first_byte b.sent) st.expected
reorder_all-Ascends_example =
    reorder_all-Ascends first_byte all_written (pos 2) (pos 100) (new 0) arrivals (
      (refl, omega arith),
      (
        (refl, omega arith),
        (
          (refl, omega arith),
          (
            (refl, omega arith),
            (
              (refl, omega arith),
              ((refl, omega arith), ((refl, omega arith), ((refl, omega arith), tt))),
            ),
          ),
        ),
      ),
    )

reorder_all-pending_bound_example :
    length
      (reorder_all all_written
        (pos 2)
        (pos 100)
        (fresh_state, record { sent = []; stats = new 0 })
        arrivals).0.pending
    < 2
reorder_all-pending_bound_example =
    reorder_all-pending_bound all_written (pos 2) (pos 100) fresh_state
      (record { sent = []; stats = new 0 }) arrivals (omega arith)

-- The payload of a number, and four packets that come in a mixed order, one of them twice.
abbrev payload : ℕ → List ℕ
payload seq = seq ∷ 0xff ∷ []

abbrev mixed : List Arrival
mixed = arrival 7 1 ∷ arrival 6 2 ∷ arrival 6 3 ∷ arrival 8 4 ∷ []

abbrev mixed_numbers : List ℕ
mixed_numbers = 8 ∷ 6 ∷ 6 ∷ 7 ∷ 5 ∷ []

mixed_all : (k : ℕ) → 5 ≤ k → k < 5 + 4 → Memᴰ k mixed_numbers
mixed_all k low high = elim (Bool-cases (k == 8)) [
  | inl this ↦ let e : k ≡ 8 = ground arith in Memᴰ.head e
  | inr other ↦ Memᴰ.tail (elim (Bool-cases (k == 6)) [
    | inl this ↦ let e : k ≡ 6 = ground arith in Memᴰ.head e
    | inr not_six ↦ Memᴰ.tail (
        Memᴰ.tail (elim (Bool-cases (k == 7)) [
          | inl this ↦ let e : k ≡ 7 = ground arith in Memᴰ.head e
          | inr not_seven ↦ let e : k ≡ 5 = ground arith in Memᴰ.tail (Memᴰ.head e)
        ]))
  ])
]

mixed_only : (k : ℕ) → Memᴰ k mixed_numbers → k < 5 + 4
mixed_only k m = of_All mixed_numbers m (omega arith)
  where
    of_All : (ks : List ℕ) → Memᴰ k ks → All (λ i. i < 9) ks → k < 9
    of_All [] m h = absurd (Memᴰ.not-nil m)
    of_All (i ∷ ks) (Memᴰ.head e) h = rw e h.0
    of_All (i ∷ ks) (Memᴰ.tail m) h = of_All ks m h.1

reorder_all-payloads_example :
    (reorder_all all_written
      (pos 4)
      (pos 100)
      (fresh_state, record { sent = []; stats = new 0 })
      (arrival 5 0 ∷ mixed)).1.sent
    ≡ payload 5 ∷ payload 6 ∷ payload 7 ∷ payload 8 ∷ []
reorder_all-payloads_example =
    reorder_all-payloads payload all_written (λ sent p. refl) (pos 4) 100 (arrival 5 0) mixed
      (new 0) 4 (omega arith) (omega arith) refl (omega arith)
      (
        (
          refl,
          omega arith,
          omega arith,
          omega arith,
          λ k low high. absurd (omega (arith, low, high)),
        ),
        (
          (
            refl,
            omega arith,
            omega arith,
            omega arith,
            λ k low high. absurd (omega (arith, low, high)),
          ),
          (
            (
              refl,
              omega arith,
              omega arith,
              omega arith,
              λ k low high. absurd (omega (arith, low, high)),
            ),
            (
              (
                refl,
                omega arith,
                omega arith,
                omega arith,
                λ k low high. absurd (omega (arith, low, high)),
              ),
              tt,
            ),
          ),
        ),
      )
      mixed_all mixed_only
