-- ===== src/Client/Ring/Window.antt =====
-- internal/client/upstream_ring.go: a run of slots round the ring, and what it holds.
use native.Mathlib.Decide.{dec_lt}
use native.Mathlib.Nat.{div-add-mod}
use t2d.Base.{
  ℕ, zero, suc, ◌+◌, ◌*◌, ◌/◌, ◌%◌, ◌≤◌, ◌<◌, ◌≡◌, ◌≢◌, refl, sym, ap, ap₂, ◌∙◌, List, [], ◌∷◌,
  ◌++◌, Option, none, some, arith, length, map, All, take, get_elem?, set, get_elem?-set_ne,
}
use t2d.Client.Ring.{UpstreamPacket}

-- The bytes of `p.data`.
abbrev pub packet_data : UpstreamPacket → List ℕ
packet_data p = take p.data_len p.buf

abbrev pub data_of : Option UpstreamPacket → List ℕ
data_of none = []
data_of (some p) = packet_data p

abbrev pub slot_data : List UpstreamPacket → ℕ → List ℕ
slot_data slots i = data_of (get_elem? slots i)

-- Places less than a turn apart are different slots.
pub mod_ne : (a b c : ℕ) → a < b → b < a + c → a % c ≢ b % c
mod_ne a b c less near e = elim (dec_lt (a / c) (b / c)) [
  | yes lt ↦ absurd (omega (arith, e, div-add-mod a c, div-add-mod b c, step lt))
  | no ge ↦ absurd (omega (arith, e, div-add-mod a c, div-add-mod b c, same (omega arith)))
]
  where
    step : a / c < b / c → c * (a / c) + c ≤ c * (b / c)
    step lt = grind arith

    same : b / c ≤ a / c → c * (b / c) ≤ c * (a / c)
    same le = grind arith

module _ (cap : ℕ) where
  -- The slots that the counters `pos`, `pos + 1`, … name.
  abbrev pub places : ℕ → ℕ → List ℕ
  places pos zero = []
  places pos (suc n) = pos % cap ∷ places (suc pos) n

  -- What these slots hold.
  abbrev pub window : List UpstreamPacket → ℕ → ℕ → List (List ℕ)
  window slots pos zero = []
  window slots pos (suc n) = slot_data slots (pos % cap) ∷ window slots (suc pos) n

  -- A write to a slot outside of the run does not change what it holds.
  window-set :
      (slots : List UpstreamPacket) (i : ℕ) (p : UpstreamPacket) (pos n : ℕ)
      → ((q : ℕ) → pos ≤ q → q < pos + n → i ≢ q % cap)
      → window (set slots i p) pos n ≡ window slots pos n
  window-set slots i p pos zero away = refl
  window-set slots i p pos (suc n) away =
      ap₂ ◌∷◌
        (ap data_of (get_elem?-set_ne slots i (pos % cap) p (away pos (omega arith) (omega arith))))
        (window-set slots i p (suc pos) n (λ q lo hi. away q (omega arith) (omega arith)))

  -- So it is with the slot of a later place, up to the turn, or of an earlier one.
  pub window-set_after :
      (slots : List UpstreamPacket) (p : UpstreamPacket) (pos n q : ℕ)
      → pos + n ≤ q
      → q < pos + cap
      → window (set slots (q % cap) p) pos n ≡ window slots pos n
  window-set_after slots p pos n q lo hi =
      window-set slots (q % cap) p pos n
        (λ k a b e. mod_ne k q cap (omega arith) (omega arith) (sym e))

  pub window-set_before :
      (slots : List UpstreamPacket) (p : UpstreamPacket) (pos n q : ℕ)
      → q < pos
      → pos + n ≤ q + cap
      → window (set slots (q % cap) p) pos n ≡ window slots pos n
  window-set_before slots p pos n q lo hi =
      window-set slots (q % cap) p pos n (λ k a b e. mod_ne q k cap (omega arith) (omega arith) e)

  -- A run that is one place longer has one slot more at its end.
  pub window-suc :
      (slots : List UpstreamPacket) (pos n q : ℕ)
      → q ≡ pos + n
      → window slots pos (suc n) ≡ window slots pos n ++ (slot_data slots (q % cap) ∷ [])
  window-suc slots pos zero q e = let e' : q ≡ pos = omega arith in rw e'
  window-suc slots pos (suc n) q e =
      ap (◌∷◌ (slot_data slots (pos % cap))) (window-suc slots (suc pos) n q (omega arith))

  pub places-suc : (pos n q : ℕ) → q ≡ pos + n → places pos (suc n) ≡ places pos n ++ (q % cap ∷ [])
  places-suc pos zero q e = let e' : q ≡ pos = omega arith in rw e'
  places-suc pos (suc n) q e = ap (◌∷◌ (pos % cap)) (places-suc (suc pos) n q (omega arith))

  pub window-add :
      (slots : List UpstreamPacket) (pos a b c : ℕ)
      → c ≡ a + b
      → window slots pos c ≡ window slots pos a ++ window slots (pos + a) b
  window-add slots pos zero b c e =
      let count : c ≡ b = omega arith in
      let start : pos ≡ pos + 0 = omega arith in rw count (ap (λ (q : ℕ). window slots q b) start)
  window-add slots pos (suc a) b zero e = absurd (omega arith)
  window-add slots pos (suc a) b (suc c) e =
      let start : suc pos + a ≡ pos + suc a = omega arith in
      ap (◌∷◌ (slot_data slots (pos % cap))) (
        window-add slots (suc pos) a b c (omega arith)
        ∙ ap (λ (q : ℕ). window slots (suc pos) a ++ window slots q b) start)

  pub map-places :
      (slots : List UpstreamPacket) (pos n : ℕ)
      → map (slot_data slots) (places pos n) ≡ window slots pos n
  map-places slots pos zero = refl
  map-places slots pos (suc n) =
      ap (◌∷◌ (slot_data slots (pos % cap))) (map-places slots (suc pos) n)

  pub length-window : (slots : List UpstreamPacket) (pos n : ℕ) → length (window slots pos n) ≡ n
  length-window slots pos zero = refl
  length-window slots pos (suc n) = ap suc (length-window slots (suc pos) n)

  pub length-places : (pos n : ℕ) → length (places pos n) ≡ n
  length-places pos zero = refl
  length-places pos (suc n) = ap suc (length-places (suc pos) n)

  -- A later place, up to the turn, is none of the run.
  pub places_ne :
      (pos n q : ℕ) → pos + n ≤ q → q < pos + cap → All (λ i. i ≢ q % cap) (places pos n)
  places_ne pos zero q lo hi = tt
  places_ne pos (suc n) q lo hi = (
    mod_ne pos q cap (omega arith) (omega arith),
    places_ne (suc pos) n q (omega arith) (omega arith),
  )
