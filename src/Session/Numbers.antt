-- ===== src/Session/Numbers.antt =====
-- internal/session/session.go, NextSequenceID: the numbers that a session gives its packets.
use t2d.Base.{ℕ, zero, suc, ◌+◌, ◌%◌, ◌^◌, ◌≡◌, ◌<◌, refl, ap₂, List, [], ◌∷◌, arith}
use t2d.Session.{UdpSession, next_sequence_id}

-- The results of so many calls in a row.
unfoldable pub next_sequence_ids : ℕ → UdpSession → List ℕ
unfolding next_sequence_id
next_sequence_ids zero s = []
next_sequence_ids (suc k) s = let (s', n) = next_sequence_id s in n ∷ next_sequence_ids k s'

abbrev pub count_up : ℕ → ℕ → List ℕ
count_up n zero = []
count_up n (suc k) = suc n ∷ count_up (suc n) k

-- As long as the counter stays below 2³², a session's packets are numbered one after another.
pub next_sequence_ids-consecutive :
    (k : ℕ) (s : UdpSession)
    → s.sequence_id + k < 2 ^ 32
    → next_sequence_ids k s ≡ count_up s.sequence_id k
unfolding next_sequence_ids next_sequence_id
next_sequence_ids-consecutive zero s h = refl
next_sequence_ids-consecutive (suc k) s h =
    let up : (s.sequence_id + 1) % 2 ^ 32 ≡ suc s.sequence_id = omega arith in
    rw up (
      ap₂ (λ (x : ℕ) (y : List ℕ). x ∷ y) refl
        (next_sequence_ids-consecutive k (record s { sequence_id = suc s.sequence_id })
          (omega arith)))
