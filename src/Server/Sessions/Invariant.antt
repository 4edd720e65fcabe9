-- ===== src/Server/Sessions/Invariant.antt =====
-- internal/server/server.go: how the sessions, their reordering states and what their connections got
-- fit together.
use mathlib.Core.Option.{some-injective}
use t2d.Base.{
  ◌⊎◌, ℕ, ◌<◌, ◌≡◌, refl, sym, ◌∙◌, inl, inr, List, [], map, Bool, true, false, Option, none, some,
  arith, Bool-cases, ◌==◌,
}
use t2d.Base.Int.{ℤ}
use t2d.Base.Maps.{Map, load, store, load-erase, load-store_if}
use t2d.Server.Backend.{Backend}
use t2d.Server.Reorder.{ReorderState, reorder}
use t2d.Server.Reorder.Ready.{Ascends, last_seq, Ready, AreReady}
use t2d.Server.Reorder.Order.{reorder-Ready, reorder-fresh_state}
use t2d.Stats.{Stats}
use t2d.Server.Sessions.{
  SessionTable, change_object, update_last_active, add_session, reorder_state, put_backend,
  write_in_order, close_session, forget_session,
}

module _ (tag : List ℕ → ℕ) where
  -- A session to which nothing was written yet has no state; one with a state is ready for a packet.
  abbrev pub Fits : Option ReorderState → List (List ℕ) → Type 0
  Fits none sent = sent ≡ []
  Fits (some st) sent = (stats : Stats) → Ready tag st (record { sent = sent; stats = stats })

  pub record IsOrdered (s : SessionTable) : Type 0 where
    pub named : (sid p : ℕ) → load sid s.sessions ≡ some p → (s.objects p).session_id ≡ sid
    pub used : (sid p : ℕ) → load sid s.sessions ≡ some p → p < s.allocated
    pub fits :
        (sid p : ℕ)
        → load sid s.sessions ≡ some p
        → Fits (load sid s.upstream_reorder_states) (s.objects p).sent
    pub stale : (sid : ℕ) → load sid s.sessions ≡ none → load sid s.upstream_reorder_states ≡ none
    pub ordered : (p : ℕ) → (hi : ℕ) × Ascends 0 (map tag (s.objects p).sent) hi

  -- Changes that the order of the packets does not depend on.
  pub record Keeps (s t : SessionTable) : Type 0 where
    pub sessions : t.sessions ≡ s.sessions
    pub allocated : t.allocated ≡ s.allocated
    pub states : t.upstream_reorder_states ≡ s.upstream_reorder_states
    pub numbers : (p : ℕ) → (t.objects p).session_id ≡ (s.objects p).session_id
    pub sent : (p : ℕ) → (t.objects p).sent ≡ (s.objects p).sent

  pub Keeps-IsOrdered : {s t : SessionTable} → Keeps s t → IsOrdered s → IsOrdered t
  Keeps-IsOrdered {s} {t} k v = record {
    named = λ sid p e. k.numbers p ∙ v.named sid p (rw (k.sessions) at e);
    used = λ sid p e. rw (k.allocated) (v.used sid p (rw (k.sessions) at e));
    fits = λ sid p e. rw (k.states, k.sent p) (v.fits sid p (rw (k.sessions) at e));
    stale = λ sid e. rw (k.states) (v.stale sid (rw (k.sessions) at e));
    ordered = λ p. rw (k.sent p) (v.ordered p);
  }

  pub update_last_active-Keeps :
      (now p : ℕ) (s : SessionTable) → Keeps s (update_last_active now p s)
  unfolding update_last_active change_object
  update_last_active-Keeps now p s = record {
    sessions = refl;
    allocated = refl;
    states = refl;
    numbers = λ q. ground arith;
    sent = λ q. ground arith;
  }

  pub close_session-Keeps : (p : ℕ) (s : SessionTable) → Keeps s (close_session p s)
  unfolding close_session change_object
  close_session-Keeps p s = record {
    sessions = refl;
    allocated = refl;
    states = refl;
    numbers = λ q. ground arith;
    sent = λ q. ground arith;
  }

  pub forget_session-IsOrdered :
      (sid : ℕ) (s : SessionTable) → IsOrdered s → IsOrdered (forget_session sid s)
  unfolding forget_session
  forget_session-IsOrdered sid s v = record {
    named = λ i p e. elim (Bool-cases (sid == i)) [
      | inl gone ↦ absurd (ground (arith, load-erase i sid s.sessions, e))
      | inr kept ↦ v.named i p (ground (arith, load-erase i sid s.sessions, e))
    ];
    used = λ i p e. elim (Bool-cases (sid == i)) [
      | inl gone ↦ absurd (ground (arith, load-erase i sid s.sessions, e))
      | inr kept ↦ v.used i p (ground (arith, load-erase i sid s.sessions, e))
    ];
    fits = λ i p e. elim (Bool-cases (sid == i)) [
      | inl gone ↦ absurd (ground (arith, load-erase i sid s.sessions, e))
      | inr kept ↦
          rw (load-erase i sid s.upstream_reorder_states, kept)
            (v.fits i p (ground (arith, load-erase i sid s.sessions, e)))
    ];
    stale = λ i e. elim (Bool-cases (sid == i)) [
      | inl gone ↦ load-erase i sid s.upstream_reorder_states ∙ rw gone refl
      | inr kept ↦
          load-erase i sid s.upstream_reorder_states
          ∙ rw kept (v.stale i (ground (arith, load-erase i sid s.sessions, e)))
    ];
    ordered = v.ordered;
  }

  stored-cases :
      (i sid p q : ℕ) (m : Map ℕ)
      → load i (store sid q m) ≡ some p
      → ((sid == i) ≡ true) × (q ≡ p) ⊎ ((sid == i) ≡ false) × (load i m ≡ some p)
  stored-cases i sid p q m e = elim (Bool-cases (sid == i)) [
    | inl this ↦ inl (this, some-injective q p (ground (arith, load-store_if i sid q m, e)))
    | inr other ↦ inr (other, ground (arith, load-store_if i sid q m, e))
  ]

  -- A new session's pointer is that of no other.
  pub add_session-IsOrdered :
      (sid now : ℕ) (s : SessionTable)
      → load sid s.sessions ≡ none
      → IsOrdered s
      → IsOrdered (add_session sid now s)
  unfolding add_session change_object
  add_session-IsOrdered sid now s absent v = record {
    named = λ i p e. elim (stored-cases i sid p s.allocated s.sessions e) [
      | inl (this, here) ↦ ground (arith, this, here)
      | inr (other, old) ↦ ground (arith, v.used i p old, v.named i p old)
    ];
    used = λ i p e. elim (stored-cases i sid p s.allocated s.sessions e) [
      | inl (this, here) ↦ omega (arith, here)
      | inr (other, old) ↦ omega (arith, v.used i p old)
    ];
    fits = λ i p e. elim (stored-cases i sid p s.allocated s.sessions e) [
      | inl (this, here) ↦
          let same : sid ≡ i = ground (arith, this) in
          let at : (s.allocated == p) ≡ true = ground (arith, here) in
          rw (at, sym same, v.stale sid absent) refl
      | inr (other, old) ↦
          let at : (s.allocated == p) ≡ false = ground (arith, v.used i p old) in
          rw at (v.fits i p old)
    ];
    stale = λ i e. elim (Bool-cases (sid == i)) [
      | inl this ↦ absurd (ground (arith, load-store_if i sid s.allocated s.sessions, e))
      | inr other ↦ v.stale i (ground (arith, load-store_if i sid s.allocated s.sessions, e))
    ];
    ordered = λ p. elim (Bool-cases (s.allocated == p)) [
      | inl this ↦ rw this (0, omega arith)
      | inr other ↦ rw other (v.ordered p)
    ];
  }

  module _ (accepts : List (List ℕ) → List ℕ → Bool) (window hold : ℤ) where
    reorder-Fits :
        (m : Option ReorderState) (b : Backend) (seq : ℕ) (payload : List ℕ) (now : ℕ)
        → Fits m b.sent
        → tag payload ≡ seq
        → seq < last_seq
        → AreReady tag (reorder accepts window hold (reorder_state m, b) seq payload now)
    unfolding reorder_state
    reorder-Fits none b seq payload now f t small =
        reorder-fresh_state tag accepts window hold b seq payload now f t small
    reorder-Fits (some st) b seq payload now f t small =
        reorder-Ready tag accepts window hold st b seq payload now (f b.stats) t small

    pub write_in_order-IsOrdered :
        (striped : Bool) (p seq : ℕ) (payload : List ℕ) (now : ℕ) (s : SessionTable)
        → load (s.objects p).session_id s.sessions ≡ some p
        → tag payload ≡ seq
        → seq < last_seq
        → IsOrdered s
        → IsOrdered (write_in_order accepts striped window hold p seq payload now s)
    unfolding write_in_order put_backend change_object
    write_in_order-IsOrdered striped p seq payload now s mapped t small v =
        let sid = (s.objects p).session_id in
        let (st, b) =
          reorder accepts window hold
            (
              reorder_state (load sid s.upstream_reorder_states),
              record { sent = (s.objects p).sent; stats = s.stats },
            )
            seq payload now in
        let ready : Ready tag st b =
          reorder-Fits (load sid s.upstream_reorder_states) _ seq payload now (v.fits sid p mapped)
            t small in
        record {
          named = λ i q e. ground (arith, v.named i q e);
          used = v.used;
          fits = λ i q e. elim (Bool-cases (sid == i)) [
            | inl this ↦
                let same : sid ≡ i = ground (arith, this) in
                let here : p ≡ q = some-injective p q (sym mapped ∙ (rw (sym same) at e)) in
                let at : (p == q) ≡ true = ground (arith, here) in
                rw (this, at)
                  (λ stats. record {
                    started = ready.started;
                    ordered = ready.ordered;
                    waiting = ready.waiting;
                    small = ready.small;
                  })
            | inr other ↦
                let at : (p == q) ≡ false = elim (Bool-cases (p == q)) [
                  | inl here ↦ absurd (ground (arith, here, other, v.named i q e))
                  | inr apart ↦ apart
                ] in
                rw (other, at, load-erase i sid s.upstream_reorder_states, other) (v.fits i q e)
          ];
          stale = λ i e. elim (Bool-cases (sid == i)) [
            | inl this ↦ absurd (ground (arith, this, mapped, e))
            | inr other ↦
                rw (other, load-erase i sid s.upstream_reorder_states, other) (v.stale i e)
          ];
          ordered = λ q. elim (Bool-cases (p == q)) [
            | inl this ↦ rw this (st.expected, ready.ordered)
            | inr other ↦ rw other (v.ordered q)
          ];
        }
