-- ===== src/Server/Reorder/Keep.antt =====
-- internal/server/server.go, writeUpstreamToBackend on a network that loses nothing: a packet that
-- waits.
use mathlib.Core.List.{Memᴰ}
use mathlib.Core.List.Memᴰ
use mathlib.Core.Option.{some-injective}
use t2d.Base.{
  ℕ, suc, ◌+◌, ◌<◌, ◌≡◌, refl, sym, ap, subst, ◌∙◌, ◌⊎◌, inl, inr, List, ◌∷◌, some, arith,
  Option-cases, Bool-cases, ◌==◌,
}
use t2d.Base.Maps.{load}
use t2d.Server.Backend.{Backend}
use t2d.Server.Reorder.{ReorderState, keep}
use t2d.Server.Reorder.Ready.{last_seq}
use t2d.Server.Reorder.Catch.{Caught}

pub keep-expected :
    (st : ReorderState) (seq : ℕ) (p : List ℕ) → (keep st seq p).expected ≡ st.expected
unfolding keep
keep-expected st seq p = ground arith

module _ (f : ℕ → List ℕ) (e t w : ℕ) (base : List (List ℕ)) where
  pub Caught-lower :
      (lo : ℕ) (seen : List ℕ) (st : ReorderState) (b : Backend)
      → Caught f e t w base (suc lo) seen st b
      → Caught f e t w base lo seen st b
  Caught-lower lo seen st b c = record {
    started = c.started;
    since = c.since;
    count = c.count;
    reached = c.reached;
    small = c.small;
    sent = c.sent;
    once = c.once;
    waits = λ k p h.
        let (same, low, high, top, m) = c.waits k p h in (same, omega (arith, low), high, top, m);
    covered = c.covered;
    arrived = c.arrived;
  }

  -- A packet that comes again.
  pub Caught-again :
      (lo seq : ℕ) (seen : List ℕ) (st : ReorderState) (b : Backend)
      → (seq < st.expected) ⊎ ((p : List ℕ) × (load seq st.pending ≡ some p))
      → Caught f e t w base lo seen st b
      → Caught f e t w base lo (seq ∷ seen) st b
  Caught-again lo seq seen st b known c = record {
    started = c.started;
    since = c.since;
    count = c.count;
    reached = c.reached;
    small = c.small;
    sent = c.sent;
    once = c.once;
    waits = λ k p h.
        let (same, low, high, top, m) = c.waits k p h in (same, low, high, top, Memᴰ.tail m);
    covered = λ k m. elim (Memᴰ.cases_cons m) [
      | inl q ↦
          subst (λ i. (i < st.expected) ⊎ ((p : List ℕ) × (load i st.pending ≡ some p))) (sym q)
            known
      | inr old ↦ c.covered k old
    ];
    arrived = λ k low high. Memᴰ.tail (c.arrived k low high);
  }

  -- A packet ahead of its turn that is within the window.
  pub keep-Caught :
      (seq : ℕ) (seen : List ℕ) (st : ReorderState) (b : Backend)
      → st.expected < seq
      → seq < st.expected + w
      → seq < last_seq
      → Caught f e t w base (suc st.expected) seen st b
      → Caught f e t w base (suc st.expected) (seq ∷ seen) (keep st seq (f seq)) b
  unfolding keep load
  keep-Caught seq seen st b ahead near small c = elim (Option-cases (load seq st.pending)) [
    | inl absent ↦
        rw (absent, keep)
          (record {
            started = c.started;
            since = c.since;
            count = c.count;
            reached = c.reached;
            small = c.small;
            sent = c.sent;
            once = (absent, c.once);
            waits = λ k p h. elim (Bool-cases (seq == k)) [
              | inl hit ↦
                  let here : seq ≡ k = ground arith in
                  let same : some p ≡ some (f k) = sym h ∙ rw hit (ap (λ i. some (f i)) here) in
                  (
                    some-injective p (f k) same,
                    omega (arith, here),
                    omega (arith, here),
                    omega (arith, here),
                    Memᴰ.head (sym here),
                  )
              | inr miss ↦
                  let (same, low, high, top, m) = c.waits k p (rw miss at h) in
                  (same, low, high, top, Memᴰ.tail m)
            ];
            covered = λ k m. elim (Bool-cases (seq == k)) [
              | inl hit ↦ inr (f seq, rw hit refl)
              | inr miss ↦ elim (Memᴰ.cases_cons m) [
                | inl q ↦ absurd (ground arith)
                | inr old ↦ elim (c.covered k old) [
                  | inl below ↦ inl below
                  | inr (p, there) ↦ inr (p, rw miss there)
                ]
              ]
            ];
            arrived = λ k low high. Memᴰ.tail (c.arrived k low high);
          })
    | inr (p, there) ↦
        rw (there, keep) (Caught-again (suc st.expected) seq seen st b (inr (p, there)) c)
  ]
