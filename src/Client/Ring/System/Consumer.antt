-- ===== src/Client/Ring/System/Consumer.antt =====
-- internal/client/upstream_ring.go, pop, tryPop and release: what the consumer does to the invariant.
use Prim.Native.Nat.{bit_and}
use t2d.Base.{
  ℕ, zero, suc, ◌+◌, ◌-◌, ◌%◌, ◌^◌, ◌<◌, ◌≡◌, ◌≢◌, refl, sym, ap, ◌∙◌, List, [], ◌∷◌, ◌++◌, false,
  Option, none, some, arith, append_assoc, set, length-set, ◌⊎◌, inl, inr, ◌==◌,
}
use t2d.Client.Ring.{
  UpstreamPacket, UpstreamRing, retry, done, clear_data, update_slot, pop, try_pop, release, next64,
}
use t2d.Client.Ring.Window.{slot_data, places, window, window-set_before, places-suc}
use t2d.Client.Ring.System.{System, tries, collect, pop_into, give_back, step}
use t2d.Client.Ring.System.Invariant.{Inv, Writes, place, next64_counter, update_slot_lem, place_lt}

-- The outcomes of a round.
pop-cases :
    (r : UpstreamRing)
    → (((r.read_head == r.tail) ≡ false)
        × (pop r ≡ (
          record r { read_head = next64 r.read_head },
          done (some (bit_and r.read_head r.mask)),
        )))
      ⊎ ((pop r ≡ (r, done none)) ⊎ (pop r ≡ (r, retry)))
unfolding pop
pop-cases r = ground arith

try_pop-cases :
    (r : UpstreamRing)
    → (((r.read_head == r.tail) ≡ false)
        × (try_pop r
            ≡ (record r { read_head = next64 r.read_head }, some (bit_and r.read_head r.mask))))
      ⊎ (try_pop r ≡ (r, none))
unfolding try_pop
try_pop-cases r = ground arith

first_place :
    (cap pos n i : ℕ) (rest : List ℕ)
    → i ∷ rest ≡ places cap pos n
    → (m : ℕ) × (n ≡ suc m) × (i ≡ pos % cap) × (rest ≡ places cap (suc pos) m)
first_place cap pos zero i rest e = cc
first_place cap pos (suc m) i rest e = (m, refl, cc, cc)

module _ {k : ℕ} {s : System} (v : Inv k s) where
  head_place : bit_and s.ring.read_head s.ring.mask ≡ v.popped % 2 ^ k
  head_place = rw (v.read_head, v.mask) (place k v.popped v.small)

  take-Inv :
      v.popped ≢ v.sent
      → Inv k (
          collect
            (record s.ring { read_head = next64 s.ring.read_head }, some (v.popped % 2 ^ k))
            s)
  unfolding collect
  take-Inv ne = record {
    small = v.small;
    capacity = v.capacity;
    mask = v.mask;
    slots = v.slots;
    sent = v.sent;
    popped = v.popped + 1;
    freed = v.freed;
    tail = v.tail;
    read_head = ap next64 v.read_head ∙ next64_counter v.popped;
    free_head = v.free_head;
    freed_le = omega (arith, v.freed_le);
    popped_le = omega (arith, v.popped_le);
    room = v.room;
    writes = v.writes;
    batch =
        ap (λ (l : List ℕ). l ++ (v.popped % 2 ^ k ∷ [])) v.batch
        ∙ sym (places-suc (2 ^ k) v.freed (v.popped - v.freed) v.popped (omega (arith, v.freed_le)))
        ∙ longer;
    content = v.content;
  }
    where
      count : suc (v.popped - v.freed) ≡ v.popped + 1 - v.freed
      count = omega (arith, v.freed_le)

      longer :
          places (2 ^ k) v.freed (suc (v.popped - v.freed))
          ≡ places (2 ^ k) v.freed (v.popped + 1 - v.freed)
      longer = ap (places (2 ^ k) v.freed) count

  more_than : (s.ring.read_head == s.ring.tail) ≡ false → v.popped ≢ v.sent
  more_than h e = ground (arith, v.read_head, v.tail, e)

  pub pop-Inv : Inv k (pop_into s)
  unfolding pop_into
  pop-Inv = elim (pop-cases s.ring) [
    | inl (more, e) ↦ rw (e, head_place) (take-Inv (more_than more))
    | inr (inl shut) ↦ rw shut v
    | inr (inr none_yet) ↦ rw none_yet v
  ]

  pub try-Inv : Inv k (step s tries)
  unfolding step
  try-Inv = elim (try_pop-cases s.ring) [
    | inl (more, e) ↦ rw (e, head_place) (take-Inv (more_than more))
    | inr nothing ↦ rw nothing v
  ]

  -- The first packet of a batch is the oldest that is not released.
  oldest :
      (i : ℕ) (rest : List ℕ)
      → s.batch ≡ i ∷ rest
      → (v.freed < v.popped)
        × (i ≡ v.freed % 2 ^ k)
        × (rest ≡ places (2 ^ k) (suc v.freed) (v.popped - suc v.freed))
  oldest i rest e =
      let (m, count, first, others) =
        first_place (2 ^ k) v.freed (v.popped - v.freed) i rest (sym e ∙ v.batch) in
      let left : m ≡ v.popped - suc v.freed = omega (arith, count) in
      (omega (arith, count), first, others ∙ ap (places (2 ^ k) (suc v.freed)) left)

  released :
      (rest : List ℕ)
      → v.freed < v.popped
      → rest ≡ places (2 ^ k) (suc v.freed) (v.popped - suc v.freed)
      → (r : UpstreamRing) (p : UpstreamPacket)
      → r ≡ record s.ring { slots = set s.ring.slots (v.freed % 2 ^ k) p }
      → Inv k (record s {
        ring = record r { free_head = next64 r.free_head };
        batch = rest;
        given_back = s.given_back ++ (slot_data s.ring.slots (v.freed % 2 ^ k) ∷ []);
      })
  released rest some_left others r p e = rw e (record {
    small = v.small;
    capacity = v.capacity;
    mask = v.mask;
    slots = length-set s.ring.slots (v.freed % 2 ^ k) p ∙ v.slots;
    sent = v.sent;
    popped = v.popped;
    freed = suc v.freed;
    tail = v.tail;
    read_head = v.read_head;
    free_head =
        ap next64 v.free_head ∙ next64_counter v.freed ∙ ap (λ (n : ℕ). n % 2 ^ 64) one_more;
    freed_le = some_left;
    popped_le = v.popped_le;
    room = omega (arith, v.room);
    writes = later s.writing v.writes;
    batch = others;
    content = v.content ∙ shorter;
  })
    where
      one_more : v.freed + 1 ≡ suc v.freed
      one_more = omega arith

      later :
          (w : Option ℕ) → Writes (2 ^ k) v.freed v.sent w → Writes (2 ^ k) (suc v.freed) v.sent w
      later none ws = tt
      later (some i) ws = (omega arith, ws.1)

      n : ℕ
      n = v.sent - suc v.freed

      count : v.sent - v.freed ≡ suc n
      count = omega (arith, v.popped_le)

      oldest_data : List ℕ
      oldest_data = slot_data s.ring.slots (v.freed % 2 ^ k)

      shorter :
          s.given_back ++ window (2 ^ k) s.ring.slots v.freed (v.sent - v.freed)
          ≡ (s.given_back ++ (oldest_data ∷ []))
            ++ window (2 ^ k) (set s.ring.slots (v.freed % 2 ^ k) p) (suc v.freed) n
      shorter =
          ap (λ (m : ℕ). s.given_back ++ window (2 ^ k) s.ring.slots v.freed m) count
          ∙ sym (
              append_assoc s.given_back (oldest_data ∷ [])
                (window (2 ^ k) s.ring.slots (suc v.freed) n))
          ∙ ap (λ (l : List (List ℕ)). (s.given_back ++ (oldest_data ∷ [])) ++ l)
              (sym (
                window-set_before (2 ^ k) s.ring.slots p (suc v.freed) n v.freed (omega arith)
                  (omega (arith, v.room, v.popped_le))))

  pub give_back-Inv : (i : ℕ) (rest : List ℕ) → s.batch ≡ i ∷ rest → Inv k (give_back (i ∷ rest) s)
  unfolding give_back release
  give_back-Inv i rest e =
      let (some_left, first, others) = oldest i rest e in
      let (p, here, cleared) =
        update_slot_lem clear_data (v.freed % 2 ^ k) s.ring (place_lt v v.freed) in
      rw first (
        released rest some_left others (update_slot clear_data (v.freed % 2 ^ k) s.ring)
          (clear_data p) cleared)
