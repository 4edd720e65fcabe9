-- ===== src/Server/Reorder/Ready.antt =====
-- internal/server/server.go, writeUpstreamToBackend: the backend gets a session's packets in the
-- order of their sequence numbers: what holds between two packets, and the drain loop.
use t2d.Base.{
  ℕ, subst, zero, suc, ◌-◌, ◌^◌, ◌≤◌, ◌<◌, ◌≡◌, ◌≢◌, ap, ◌∙◌, sym, inl, inr, List, [], ◌∷◌, ◌++◌,
  map, Bool, true, false, none, some, arith, length, All, Option-cases,
}
use mathlib.Core.List.{map-append}
use t2d.Server.Backend.{Backend, write_backend_packet, write-cases}
use t2d.Base.Maps.{load, erase}
use t2d.Server.Reorder.{PendingMap, ReorderState, next32, drain, drain_all, initialize}
use t2d.Server.Reorder.Pending.{All-erase, All-load, erase-ne, load-none, length-erase-found}

-- `lo ≤ x₁ < x₂ < … < hi`
abbrev pub Ascends : ℕ → List ℕ → ℕ → Type 0
Ascends lo [] hi = lo ≤ hi
Ascends lo (x ∷ xs) hi = (lo ≤ x) × Ascends (suc x) xs hi

pub Ascends-mono : {a b : ℕ} (lo : ℕ) (xs : List ℕ) → a ≤ b → Ascends lo xs a → Ascends lo xs b
Ascends-mono lo [] h v = omega arith
Ascends-mono lo (x ∷ xs) h v = (v.0, Ascends-mono (suc x) xs h v.1)

pub Ascends-snoc :
    {hi : ℕ} (lo x : ℕ) (xs : List ℕ)
    → Ascends lo xs hi
    → hi ≤ x
    → Ascends lo (xs ++ (x ∷ [])) (suc x)
Ascends-snoc lo x [] v h = omega arith
Ascends-snoc lo x (y ∷ xs) v h = (v.0, Ascends-snoc (suc y) x xs v.1 h)

-- The largest sequence number that the counter reaches without wrapping round.
abbrev pub last_seq : ℕ
last_seq = 2 ^ 32 - 1

pub next32-suc : (a : ℕ) → a < last_seq → next32 a ≡ suc a
next32-suc a h = omega arith

pub initialize-started :
    (st : ReorderState) (seq now : ℕ) → st.initialized ≡ true → initialize st seq now ≡ st
unfolding initialize
initialize-started st seq now h = ground arith

module _ (accepts : List (List ℕ) → List ℕ → Bool) where
  pub drain-found :
      (fuel : ℕ) (st : ReorderState) (b : Backend) (now : ℕ) {p : List ℕ}
      → load st.expected st.pending ≡ some p
      → (write_backend_packet accepts b p).1 ≡ true
      → drain accepts (suc fuel) st b now
        ≡ drain accepts fuel
            (record st {
              pending = erase st.expected st.pending;
              expected = next32 st.expected;
              last_drain = now;
            })
            (write_backend_packet accepts b p).0
            now
  unfolding drain
  drain-found fuel st b now found ok = rw (found, ok, drain)

  pub drain-failed :
      (fuel : ℕ) (st : ReorderState) (b : Backend) (now : ℕ) {p : List ℕ}
      → load st.expected st.pending ≡ some p
      → (write_backend_packet accepts b p).1 ≡ false
      → drain accepts (suc fuel) st b now ≡ (
        record st { pending = erase st.expected st.pending },
        (write_backend_packet accepts b p).0,
      )
  unfolding drain
  drain-failed fuel st b now found failed = rw (found, failed, drain)

  pub drain-none :
      (fuel : ℕ) (st : ReorderState) (b : Backend) (now : ℕ)
      → load st.expected st.pending ≡ none
      → drain accepts (suc fuel) st b now ≡ (st, b)
  unfolding drain
  drain-none fuel st b now nothing = rw (nothing, drain)

-- `tag` reads off a payload the sequence number that it was sent under.
module _ (tag : List ℕ → ℕ) where
  -- An entry of the map that lies at `lo` or behind.
  abbrev pub Waits : ℕ → ℕ × List ℕ → Type 0
  Waits lo e = (lo ≤ e.0) × (tag e.1 ≡ e.0) × (e.0 < last_seq)

  Waits-above :
      (lo : ℕ) (m : PendingMap) → All (Waits lo) m → All (λ e. e.0 ≢ lo) m → All (Waits (suc lo)) m
  Waits-above lo [] w ne = tt
  Waits-above lo (e ∷ m) w ne =
      ((omega (arith, w.0.0, ne.0), w.0.1, w.0.2), Waits-above lo m w.1 ne.1)

  pub Waits-at :
      (lo k : ℕ) (m : PendingMap) → All (Waits lo) m → All (λ e. k ≤ e.0) m → All (Waits k) m
  Waits-at lo k [] w ge = tt
  Waits-at lo k (e ∷ m) w ge = ((ge.0, w.0.1, w.0.2), Waits-at lo k m w.1 ge.1)

  abbrev pub tags : Backend → List ℕ
  tags b = map tag b.sent

  -- Between two packets: all that was sent lies below `expected`, all that waits above it.
  pub record Ready (st : ReorderState) (b : Backend) : Type 0 where
    pub started : st.initialized ≡ true
    pub ordered : Ascends 0 (tags b) st.expected
    pub waiting : All (Waits (suc st.expected)) st.pending
    pub small : st.expected ≤ last_seq

  pub sent-Ascends :
      (b b' : Backend) (e : ℕ) (p : List ℕ)
      → b'.sent ≡ b.sent ++ (p ∷ [])
      → Ascends 0 (tags b) e
      → e ≤ tag p
      → Ascends 0 (tags b') (suc (tag p))
  sent-Ascends b b' e p sent o le =
      subst (λ (xs : List ℕ). Ascends 0 xs (suc (tag p)))
        (sym (ap (map tag) sent ∙ map-append tag b.sent (p ∷ [])))
        (Ascends-snoc 0 (tag p) (tags b) o le)

  pub unsent-Ascends :
      (b b' : Backend) (e : ℕ) → b'.sent ≡ b.sent → Ascends 0 (tags b) e → Ascends 0 (tags b') e
  unsent-Ascends b b' e sent o = subst (λ (x : List (List ℕ)). Ascends 0 (map tag x) e) (sym sent) o

  deleted-Waits :
      (st : ReorderState)
      → All (Waits st.expected) st.pending
      → All (Waits (suc st.expected)) (erase st.expected st.pending)
  deleted-Waits st w =
      Waits-above st.expected (erase st.expected st.pending)
        (All-erase (Waits st.expected) st.expected st.pending w) (erase-ne st.expected st.pending)

  abbrev pub AreReady : ReorderState × Backend → Type 0
  AreReady c = Ready c.0 c.1

  module _ (accepts : List (List ℕ) → List ℕ → Bool) where
    drain-Ready :
        (fuel : ℕ) (st : ReorderState) (b : Backend) (now : ℕ)
        → length st.pending < fuel
        → st.initialized ≡ true
        → Ascends 0 (tags b) st.expected
        → All (Waits st.expected) st.pending
        → st.expected ≤ last_seq
        → AreReady (drain accepts fuel st b now)
    drain-Ready zero st b now h i o w s = absurd (omega arith)
    drain-Ready (suc fuel) st b now h i o w s = elim (Option-cases (load st.expected st.pending)) [
      | inl nothing ↦ rw (drain-none accepts fuel st b now nothing) (record {
        started = i;
        ordered = o;
        waiting = Waits-above st.expected st.pending w (load-none st.expected st.pending nothing);
        small = s;
      })
      | inr (p, found) ↦
          let here = All-load (Waits st.expected) st.expected st.pending w found in
          let behind = deleted-Waits st w in
          elim (write-cases accepts b p) [
            | inl (ok, sent) ↦
                let up : next32 st.expected ≡ suc st.expected = next32-suc st.expected here.2 in
                rw (drain-found accepts fuel st b now found ok) (
                  drain-Ready fuel _ _ now
                    (omega (arith, length-erase-found st.expected st.pending found, h)) i
                    (Ascends-mono 0 _ (omega (arith, here.1, up)) (
                      sent-Ascends b (write_backend_packet accepts b p).0 st.expected p sent o
                        (omega (arith, here.1))))
                    (rw up behind) (omega (arith, up, here.2)))
            | inr (failed, sent) ↦ rw (drain-failed accepts fuel st b now found failed) (record {
              started = i;
              ordered = unsent-Ascends b (write_backend_packet accepts b p).0 st.expected sent o;
              waiting = behind;
              small = s;
            })
          ]
    ]

    pub drain_all-Ready :
        (st : ReorderState) (b : Backend) (now : ℕ)
        → st.initialized ≡ true
        → Ascends 0 (tags b) st.expected
        → All (Waits st.expected) st.pending
        → st.expected ≤ last_seq
        → AreReady (drain_all accepts st b now)
    unfolding drain_all
    drain_all-Ready st b now i o w s =
        drain-Ready (suc (length st.pending)) st b now (omega arith) i o w s
