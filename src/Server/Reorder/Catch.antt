-- ===== src/Server/Reorder/Catch.antt =====
-- internal/server/server.go, writeUpstreamToBackend on a network that loses nothing: what stands
-- between two packets, and the drain loop.
use mathlib.Core.List.{Memᴰ}
use t2d.Base.{
  ℕ, zero, suc, ◌+◌, ◌≤◌, ◌<◌, ◌≡◌, ◌≢◌, refl, sym, ap, ◌∙◌, ◌⊎◌, inl, inr, List, [], ◌∷◌, ◌++◌,
  Bool, true, false, none, some, arith, length, append_assoc, Option-cases, Bool-cases, ◌==◌,
}
use mathlib.Core.Option.{some-ne-none}
use t2d.Base.Maps.{load, erase, IsMap, load-erase, erase-IsMap, length-erase}
use t2d.Server.Backend.{Backend, write_backend_packet}
use t2d.Server.Reorder.{ReorderState, next32, drain}
use t2d.Server.Reorder.Ready.{last_seq, next32-suc, drain-found, drain-none}

-- What was sent under the numbers from `e` on, so many of them.
abbrev pub payloads : (ℕ → List ℕ) → ℕ → ℕ → List (List ℕ)
payloads f e zero = []
payloads f e (suc n) = f e ∷ payloads f (suc e) n

pub payloads-snoc :
    (f : ℕ → List ℕ) (e n : ℕ) → payloads f e (suc n) ≡ payloads f e n ++ (f (e + n) ∷ [])
payloads-snoc f e zero = ap (λ k. f k ∷ []) (omega arith)
payloads-snoc f e (suc n) =
    ap (λ xs. f e ∷ xs)
      (payloads-snoc f (suc e) n ∙ ap (λ k. payloads f (suc e) n ++ (f k ∷ [])) (omega arith))

-- `f` are the payloads by number, `e` the first number, `t` a time before all, `base` what was sent
-- before, and `w` the window.
module _ (f : ℕ → List ℕ) (e t w : ℕ) (base : List (List ℕ)) where
  -- The numbers seen are those from `e` on that were passed on and those that wait, which lie at `lo`
  -- or behind.
  pub record Caught (lo : ℕ) (seen : List ℕ) (st : ReorderState) (b : Backend) : Type 0 where
    pub started : st.initialized ≡ true
    pub since : t ≤ st.last_drain
    pub count : ℕ
    pub reached : st.expected ≡ e + count
    pub small : st.expected ≤ last_seq
    pub sent : b.sent ≡ base ++ payloads f e count
    pub once : IsMap st.pending
    pub waits :
        (k : ℕ) (p : List ℕ)
        → load k st.pending ≡ some p
        → (p ≡ f k) × (lo ≤ k) × (k < st.expected + w) × (k < last_seq) × Memᴰ k seen
    pub covered :
        (k : ℕ) → Memᴰ k seen → (k < st.expected) ⊎ ((p : List ℕ) × (load k st.pending ≡ some p))
    pub arrived : (k : ℕ) → e ≤ k → k < st.expected → Memᴰ k seen

  -- Between two packets nothing waits that is expected next.
  abbrev pub IsCaughtUp : List ℕ → ReorderState × Backend → Type 0
  IsCaughtUp seen c = Caught (suc c.0.expected) seen c.0 c.1

  -- Where nothing waits that is expected next, all that waits lies behind it.
  pub Caught-above :
      (seen : List ℕ) (st : ReorderState) (b : Backend)
      → load st.expected st.pending ≡ none
      → Caught st.expected seen st b
      → Caught (suc st.expected) seen st b
  Caught-above seen st b nothing c = record {
    started = c.started;
    since = c.since;
    count = c.count;
    reached = c.reached;
    small = c.small;
    sent = c.sent;
    once = c.once;
    waits = λ k p h.
        let (same, low, high, top, m) = c.waits k p h in
        let ne : st.expected ≢ k =
          λ q. some-ne-none p (sym h ∙ ap (λ i. load i st.pending) (sym q) ∙ nothing) in
        (same, omega (arith, low, ne), high, top, m);
    covered = c.covered;
    arrived = c.arrived;
  }

  module _ (accepts : List (List ℕ) → List ℕ → Bool)
      (all_taken : (sent : List (List ℕ)) (p : List ℕ) → accepts sent p ≡ true) where
    pub write_taken :
        (b : Backend) (p : List ℕ)
        → ((write_backend_packet accepts b p).1 ≡ true)
          × ((write_backend_packet accepts b p).0.sent ≡ b.sent ++ (p ∷ []))
    unfolding write_backend_packet
    write_taken b p = rw (all_taken b.sent p) (refl, refl)

    -- The expected packet is passed on, and was the only one with its number.
    pub Caught-next :
        (seen seen' : List ℕ) (st : ReorderState) (b : Backend) (now : ℕ)
        → t ≤ now
        → st.expected < last_seq
        → Memᴰ st.expected seen'
        → ((k : ℕ) → Memᴰ k seen → Memᴰ k seen')
        → ((k : ℕ) → (st.expected == k) ≡ false → Memᴰ k seen' → Memᴰ k seen)
        → Caught st.expected seen st b
        → Caught
            (next32 st.expected)
            seen'
            (record st {
              pending = erase st.expected st.pending;
              expected = next32 st.expected;
              last_drain = now;
            })
            (write_backend_packet accepts b (f st.expected)).0
    Caught-next seen seen' st b now later small here grow others c =
        let up : next32 st.expected ≡ suc st.expected = next32-suc st.expected small in
        let left = λ (k : ℕ). load-erase k st.expected st.pending in
        record {
          started = c.started;
          since = later;
          count = suc c.count;
          reached = omega (arith, up, c.reached);
          small = omega (arith, up, small);
          sent =
              (write_taken b (f st.expected)).1
              ∙ ap (λ xs. xs ++ (f st.expected ∷ [])) c.sent
              ∙ append_assoc base (payloads f e c.count) (f st.expected ∷ [])
              ∙ ap (λ k. base ++ (payloads f e c.count ++ (f k ∷ []))) c.reached
              ∙ ap (λ xs. base ++ xs) (sym (payloads-snoc f e c.count));
          once = erase-IsMap st.expected st.pending c.once;
          waits = λ k p h. elim (Bool-cases (st.expected == k)) [
            | inl hit ↦ absurd (ground (arith, left k, h))
            | inr miss ↦
                let (same, low, high, top, m) = c.waits k p (ground (arith, left k, h)) in
                (same, ground (arith, low, up), omega (arith, up, high), top, grow k m)
          ];
          covered = λ k m. elim (Bool-cases (st.expected == k)) [
            | inl hit ↦ inl (ground (arith, up))
            | inr miss ↦ elim (c.covered k (others k miss m)) [
              | inl below ↦ inl (omega (arith, up, below))
              | inr (p, there) ↦ inr (p, left k ∙ rw miss there)
            ]
          ];
          arrived = λ k low high. elim (Bool-cases (st.expected == k)) [
            | inl hit ↦ let same : st.expected ≡ k = ground arith in rw (sym same) here
            | inr miss ↦ grow k (c.arrived k low (ground (arith, up, high)))
          ];
        }

    pub drain-IsCaughtUp :
        (fuel : ℕ) (seen : List ℕ) (st : ReorderState) (b : Backend) (now : ℕ)
        → length st.pending < fuel
        → t ≤ now
        → Caught st.expected seen st b
        → IsCaughtUp seen (drain accepts fuel st b now)
    drain-IsCaughtUp zero seen st b now h later c = absurd (omega arith)
    drain-IsCaughtUp (suc fuel) seen st b now h later c =
        elim (Option-cases (load st.expected st.pending)) [
          | inl nothing ↦
              rw (drain-none accepts fuel st b now nothing) (Caught-above seen st b nothing c)
          | inr (p, there) ↦
              let (same, _, _, top, here) = c.waits st.expected p there in
              let found : load st.expected st.pending ≡ some (f st.expected) =
                there ∙ ap some same in
              rw (drain-found accepts fuel st b now found (write_taken b (f st.expected)).0) (
                drain-IsCaughtUp fuel seen _ _ now
                  (omega (arith, h, length-erase st.expected st.pending c.once there)) later
                  (Caught-next seen seen st b now later top here (λ k m. m) (λ k miss m. m) c))
        ]
