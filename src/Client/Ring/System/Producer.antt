-- ===== src/Client/Ring/System/Producer.antt =====
-- internal/client/upstream_ring.go, acquire, submit and discard: what the producer does to the invariant.
use Prim.Native.Nat.{bit_and}
use t2d.Base.{
  ℕ, suc, ◌+◌, ◌-◌, ◌%◌, ◌^◌, ◌<◌, ◌≡◌, refl, sym, subst, ap, ap₂, ◌∙◌, List, [], ◌∷◌, ◌++◌, true,
  false, Option, none, some, arith, length, append_assoc, get_elem?, length-set, ltb, Bool-cases,
  Option-cases, ◌⊎◌, inl, inr,
}
use t2d.Client.Ring.{
  UpstreamPacket, UpstreamRing, retry, done, clear_data, update_slot, acquire, submit, discard,
  sub64, next64,
}
use t2d.Client.Ring.Window.{slot_data, window, window-set_after, window-suc}
use t2d.Client.Ring.System.{System, fill_packet, fill, send, reserve}
use t2d.Client.Ring.System.Invariant.{
  Inv, Writes, pow_le, place, sub64_counters, next64_counter, update_slot_lem, place_lt,
}

-- The outcomes of a round.
acquire-cases :
    (r : UpstreamRing)
    → (acquire r ≡ (r, done none))
      ⊎ ((acquire r ≡ (r, retry))
          ⊎ ((ltb (sub64 r.tail r.free_head) r.capacity ≡ true)
              × (acquire r ≡ (
                update_slot clear_data (bit_and r.tail r.mask) r,
                done (some (bit_and r.tail r.mask)),
              ))))
unfolding acquire
acquire-cases r = ground arith

submit-cases :
    (i : ℕ) (r : UpstreamRing)
    → (submit (some i) r ≡ (r, false))
      ⊎ (submit (some i) r ≡ (record r { tail = next64 r.tail }, true))
unfolding submit
submit-cases i r = ground arith

module _ {k : ℕ} {s : System} (v : Inv k s) where
  -- The producer may write to its slot, and give it up.
  touch :
      (f : UpstreamPacket → UpstreamPacket) (w : Option ℕ)
      → v.sent < v.freed + 2 ^ k
      → Writes (2 ^ k) v.freed v.sent w
      → Inv k (record s { ring = update_slot f (v.sent % 2 ^ k) s.ring; writing = w })
  touch f w room ws =
      let (p, here, e) = update_slot_lem f (v.sent % 2 ^ k) s.ring (place_lt v v.sent) in
      rw e (record {
        small = v.small;
        capacity = v.capacity;
        mask = v.mask;
        slots = length-set s.ring.slots (v.sent % 2 ^ k) (f p) ∙ v.slots;
        sent = v.sent;
        popped = v.popped;
        freed = v.freed;
        tail = v.tail;
        read_head = v.read_head;
        free_head = v.free_head;
        freed_le = v.freed_le;
        popped_le = v.popped_le;
        room = v.room;
        writes = ws;
        batch = v.batch;
        content =
            v.content
            ∙ ap (λ (l : List (List ℕ)). s.given_back ++ l)
                (sym (
                  window-set_after (2 ^ k) s.ring.slots (f p) v.freed (v.sent - v.freed) v.sent
                    (omega (arith, v.freed_le, v.popped_le)) room));
      })

  -- A round of `acquire` succeeds only if a slot is free.
  free_slot :
      ltb (sub64 s.ring.tail s.ring.free_head) s.ring.capacity ≡ true → v.sent < v.freed + 2 ^ k
  free_slot h = ground (
    arith,
    v.tail,
    v.free_head,
    v.capacity,
    v.freed_le,
    v.popped_le,
    sub64_counters v.sent v.freed (2 ^ k),
    v.room,
    pow_le k v.small,
  )

  tail_place : bit_and s.ring.tail s.ring.mask ≡ v.sent % 2 ^ k
  tail_place = rw (v.tail, v.mask) (place k v.sent v.small)

  idle : Inv k (record s { writing = none })
  idle = record {
    small = v.small;
    capacity = v.capacity;
    mask = v.mask;
    slots = v.slots;
    sent = v.sent;
    popped = v.popped;
    freed = v.freed;
    tail = v.tail;
    read_head = v.read_head;
    free_head = v.free_head;
    freed_le = v.freed_le;
    popped_le = v.popped_le;
    room = v.room;
    writes = tt;
    batch = v.batch;
    content = v.content;
  }

  pub reserve-Inv : Inv k (reserve none s)
  unfolding reserve
  reserve-Inv = elim (acquire-cases s.ring) [
    | inl shut ↦ rw shut idle
    | inr (inl full) ↦ rw full v
    | inr (inr (free, e)) ↦
        rw (e, tail_place)
          (touch clear_data (some (v.sent % 2 ^ k)) (free_slot free) (free_slot free, refl))
  ]

  written_place : (i : ℕ) → s.writing ≡ some i → (v.sent < v.freed + 2 ^ k) × (i ≡ v.sent % 2 ^ k)
  written_place i e = subst (Writes (2 ^ k) v.freed v.sent) e v.writes

  touch_written :
      (f : UpstreamPacket → UpstreamPacket) (i : ℕ) (w : Option ℕ)
      → s.writing ≡ some i
      → Writes (2 ^ k) v.freed v.sent w
      → Inv k (record s { ring = update_slot f i s.ring; writing = w })
  touch_written f i w e ws =
      let (room, at_tail) = written_place i e in
      subst (λ (j : ℕ). Inv k (record s { ring = update_slot f j s.ring; writing = w }))
        (sym at_tail) (touch f w room ws)

  pub fill-Inv : (bytes : List ℕ) (i : ℕ) → s.writing ≡ some i → Inv k (fill bytes i s)
  unfolding fill discard
  fill-Inv bytes i e = elim (Option-cases (get_elem? s.ring.slots i)) [
    | inl missing ↦ rw (missing, fill) v
    | inr (q, here) ↦ elim (Bool-cases (ltb (length q.buf) (length bytes))) [
      | inl large ↦ rw (here, fill, large) (touch_written clear_data i none e tt)
      | inr fits ↦ rw (here, fill, fits) (touch_written (fill_packet bytes) i s.writing e v.writes)
    ]
  ]

  pub send-Inv : (i : ℕ) → s.writing ≡ some i → Inv k (send i s)
  unfolding send discard
  send-Inv i e = elim (submit-cases i s.ring) [
    | inl shut ↦ rw (shut, send) (touch_written clear_data i none e tt)
    | inr sent ↦ rw (sent, send) (submitted (written_place i e).0 (written_place i e).1)
  ]
    where
      submitted :
          v.sent < v.freed + 2 ^ k
          → i ≡ v.sent % 2 ^ k
          → Inv k (record s {
            ring = record s.ring { tail = next64 s.ring.tail };
            writing = none;
            submitted = s.submitted ++ (slot_data s.ring.slots i ∷ []);
          })
      submitted room at_tail = record {
        small = v.small;
        capacity = v.capacity;
        mask = v.mask;
        slots = v.slots;
        sent = v.sent + 1;
        popped = v.popped;
        freed = v.freed;
        tail = ap next64 v.tail ∙ next64_counter v.sent;
        read_head = v.read_head;
        free_head = v.free_head;
        freed_le = v.freed_le;
        popped_le = omega (arith, v.popped_le);
        room = omega arith;
        writes = tt;
        batch = v.batch;
        content =
            ap₂ (λ (a : List (List ℕ)) (b : List ℕ). a ++ (b ∷ [])) v.content
              (ap (slot_data s.ring.slots) at_tail)
            ∙ append_assoc s.given_back (window (2 ^ k) s.ring.slots v.freed (v.sent - v.freed))
                (slot_data s.ring.slots (v.sent % 2 ^ k) ∷ [])
            ∙ ap (λ (l : List (List ℕ)). s.given_back ++ l) longer;
      }
        where
          count : suc (v.sent - v.freed) ≡ v.sent + 1 - v.freed
          count = omega (arith, v.freed_le, v.popped_le)

          longer :
              window (2 ^ k) s.ring.slots v.freed (v.sent - v.freed)
                ++ (slot_data s.ring.slots (v.sent % 2 ^ k) ∷ [])
              ≡ window (2 ^ k) s.ring.slots v.freed (v.sent + 1 - v.freed)
          longer =
              sym (
                window-suc (2 ^ k) s.ring.slots v.freed (v.sent - v.freed) v.sent
                  (omega (arith, v.freed_le, v.popped_le)))
              ∙ ap (window (2 ^ k) s.ring.slots v.freed) count
