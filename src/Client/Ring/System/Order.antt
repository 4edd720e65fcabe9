-- ===== src/Client/Ring/System/Order.antt =====
-- internal/client/upstream_ring.go: the order of the packets, and who may touch a slot.
use native.Mathlib.Decide.{dec_lt}
use native.Mathlib.Nat.{pow-le-pow_right}
use t2d.Base.{
  ℕ, ◌+◌, ◌-◌, ◌^◌, ◌≤◌, ◌<◌, ◌≡◌, ◌≢◌, refl, sym, subst, ap, ◌∙◌, List, ◌++◌, some, arith, length,
  map, All, length-replicate, if◌then◌else◌,
}
use t2d.Base.Int.{ℤ, pos, pos_part, leb_ℤ}
use t2d.Client.Ring.{new_upstream_ring, next_power_of_two}
use t2d.Client.Ring.Size.{next_power_of_two_lem}
use t2d.Client.Ring.Window.{
  window, slot_data, window-add, map-places, length-window, length-places, places_ne,
}
use t2d.Client.Ring.System.{System, Event, run, start}
use t2d.Client.Ring.System.Invariant.{Inv, Writes}
use t2d.Client.Ring.System.Steps.{run-Inv}

-- What `cfg.UpstreamQueueSize` asks for, at least 1.
abbrev pub wanted : ℤ → ℕ
wanted capacity = if leb_ℤ capacity (pos 0) then 1 else pos_part capacity

wanted_pos : (capacity : ℤ) → 0 < wanted capacity
wanted_pos capacity = ground arith

exponent : (j : ℕ) → 2 ^ j < 2 ^ 63 → j ≤ 63
exponent j h = elim (dec_lt 63 j) [
  | yes big ↦
      absurd (omega (arith, pow-le-pow_right {n = 2} (omega arith) {i = 63} {j = j} (omega arith)))
  | no small ↦ omega arith
]

-- A new ring of up to 2^62 slots meets the invariant.
pub start-Inv :
    (capacity : ℤ) (packet_size : ℕ)
    → wanted capacity ≤ 2 ^ 62
    → (k : ℕ) × Inv k (start (new_upstream_ring capacity packet_size))
unfolding start new_upstream_ring
start-Inv capacity packet_size h =
    let n = wanted capacity in
    let (j, pow, big, near) = next_power_of_two_lem n (wanted_pos capacity) h in
    (
      j,
      record {
        small = exponent j (omega arith);
        capacity = pow;
        mask = ap (λ (m : ℕ). m - 1) pow;
        slots = length-replicate (next_power_of_two n) _ ∙ pow;
        sent = 0;
        popped = 0;
        freed = 0;
        tail = refl;
        read_head = refl;
        free_head = refl;
        freed_le = omega arith;
        popped_le = omega arith;
        room = omega arith;
        writes = tt;
        batch = refl;
        content = refl;
      },
    )

-- What is submitted and not yet released: the packets of the consumer's batch, then others, no more
-- in all than the ring has slots.
abbrev pub InOrder : System → Type 0
InOrder s =
    (queued : List (List ℕ)) × (s.submitted
      ≡ s.given_back ++ (map (slot_data s.ring.slots) s.batch ++ queued))
    × (length s.batch + length queued ≤ s.ring.capacity)

Inv-InOrder : {k : ℕ} {s : System} → Inv k s → InOrder s
Inv-InOrder {k} {s} v = (
  window (2 ^ k) s.ring.slots (v.freed + held) waiting,
  v.content ∙ ap (λ (l : List (List ℕ)). s.given_back ++ l) (whole ∙ batch),
  omega (
    arith,
    v.capacity,
    v.room,
    v.freed_le,
    v.popped_le,
    ap length v.batch,
    length-places (2 ^ k) v.freed held,
    length-window (2 ^ k) s.ring.slots (v.freed + held) waiting,
  ),
)
  where
    held : ℕ
    held = v.popped - v.freed

    waiting : ℕ
    waiting = v.sent - v.popped

    whole :
        window (2 ^ k) s.ring.slots v.freed (v.sent - v.freed)
        ≡ window (2 ^ k) s.ring.slots v.freed held
          ++ window (2 ^ k) s.ring.slots (v.freed + held) waiting
    whole =
        window-add (2 ^ k) s.ring.slots v.freed held waiting (v.sent - v.freed)
          (omega (arith, v.freed_le, v.popped_le))

    batch :
        window (2 ^ k) s.ring.slots v.freed held
          ++ window (2 ^ k) s.ring.slots (v.freed + held) waiting
        ≡ map (slot_data s.ring.slots) s.batch
          ++ window (2 ^ k) s.ring.slots (v.freed + held) waiting
    batch =
        ap (λ (l : List (List ℕ)). l ++ window (2 ^ k) s.ring.slots (v.freed + held) waiting)
          (sym (
            ap (map (slot_data s.ring.slots)) v.batch
            ∙ map-places (2 ^ k) s.ring.slots v.freed held))

-- After any schedule of a new ring's producer and consumer, for a wanted capacity up to 2⁶², what the
-- consumer has written, which is the data that its packets hold when it releases them, and what lies in
-- its batch, followed by the packets still queued, is what the producer has submitted, in that order and
-- unchanged; batch and queue are together no longer than the ring.
pub run-InOrder :
    (capacity : ℤ) (packet_size : ℕ) (es : List Event)
    → wanted capacity ≤ 2 ^ 62
    → InOrder (run (start (new_upstream_ring capacity packet_size)) es)
run-InOrder capacity packet_size es h =
    let (k, v) = start-Inv capacity packet_size h in Inv-InOrder (run-Inv es v)

-- The packet that the producer fills is none of the consumer's batch.
abbrev pub Exclusive : System → Type 0
Exclusive s = (i : ℕ) → s.writing ≡ some i → All (λ j. j ≢ i) s.batch

Inv-Exclusive : {k : ℕ} {s : System} → Inv k s → Exclusive s
Inv-Exclusive {k} {s} v i e =
    let (room, at_tail) = subst (Writes (2 ^ k) v.freed v.sent) e v.writes in
    rw (v.batch, at_tail)
      (places_ne (2 ^ k) v.freed (v.popped - v.freed) v.sent
        (omega (arith, v.freed_le, v.popped_le)) room)

-- After any schedule of a new ring's producer and consumer, for a wanted capacity up to 2⁶², the
-- packet that the producer has acquired is none of those that the consumer has popped and not yet released.
pub run-Exclusive :
    (capacity : ℤ) (packet_size : ℕ) (es : List Event) (i : ℕ)
    → wanted capacity ≤ 2 ^ 62
    → (run (start (new_upstream_ring capacity packet_size)) es).writing ≡ some i
    → All (λ j. j ≢ i) (run (start (new_upstream_ring capacity packet_size)) es).batch
run-Exclusive capacity packet_size es i h e =
    let (k, v) = start-Inv capacity packet_size h in Inv-Exclusive (run-Inv es v) i e
