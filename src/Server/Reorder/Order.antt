-- ===== src/Server/Reorder/Order.antt =====
-- internal/server/server.go, writeUpstreamToBackend: the backend gets a session's packets in the
-- order of their sequence numbers, and none of them twice.
use t2d.Base.{
  ℕ, subst, suc, ◌-◌, ◌%◌, ◌^◌, ◌≤◌, ◌<◌, ◌≡◌, refl, sym, inl, inr, List, [], ◌∷◌, map, Bool, arith,
  length, All, Bool-cases, Option-cases, ltb, ◌==◌, leb, ◌||◌,
}
use t2d.Base.Int.{ℤ, pos, leb_ℤ}
use t2d.Stats.{Stats}
use t2d.Server.Backend.{Backend, write_backend_packet, write-cases}
use t2d.Base.Maps.{load}
use t2d.Server.Reorder.{
  min_seq, ReorderState, fresh_state, Arrival, next32, sub32, window_size, force_drain, initialize,
  deliver, restart, keep, hold_back, reorder, reorder_all, place,
}
use t2d.Server.Reorder.Pending.{All-load, min_seq-le, min_seq-load}
use t2d.Server.Reorder.Ready.{
  Ascends, Ascends-mono, last_seq, next32-suc, initialize-started, Waits, Waits-at, tags, Ready,
  sent-Ascends, unsent-Ascends, AreReady, drain_all-Ready,
}

module _ (tag : List ℕ → ℕ) (accepts : List (List ℕ) → List ℕ → Bool) where
  force_drain-Ready :
      (st : ReorderState) (b : Backend) (now : ℕ)
      → Ready tag st b
      → AreReady tag (force_drain accepts st b now)
  unfolding force_drain
  force_drain-Ready st b now r = elim (Option-cases (min_seq st.pending)) [
    | inl nothing ↦ rw (nothing, force_drain) r
    | inr (k, least) ↦
        let (p, there) = min_seq-load st.pending least in
        let entry = All-load (Waits tag (suc st.expected)) k st.pending r.waiting there in
        rw (least, force_drain)
          (drain_all-Ready tag accepts (record st { expected = k }) b now r.started
            (Ascends-mono 0 (tags tag b) (omega (arith, entry.0)) r.ordered)
            (Waits-at tag (suc st.expected) k st.pending r.waiting (min_seq-le st.pending least))
            (omega (arith, entry.2)))
  ]

  deliver-Ready :
      (st : ReorderState) (b : Backend) (p : List ℕ) (now : ℕ)
      → Ready tag st b
      → tag p ≡ st.expected
      → st.expected < last_seq
      → AreReady tag (deliver accepts st b p now)
  unfolding deliver
  deliver-Ready st b p now r t small =
      let up : next32 st.expected ≡ suc st.expected = next32-suc st.expected small in
      elim (write-cases accepts b p) [
        | inl (ok, sent) ↦
            rw (ok, deliver)
              (drain_all-Ready tag accepts _ _ now r.started
                (Ascends-mono 0 _ (omega (arith, t, up)) (
                  sent-Ascends tag b (write_backend_packet accepts b p).0 st.expected p sent
                    r.ordered (omega (arith, t))))
                (rw up r.waiting) (omega (arith, up, small)))
        | inr (failed, sent) ↦
            rw (failed, deliver)
              (record {
                started = r.started;
                ordered =
                    unsent-Ascends tag b (write_backend_packet accepts b p).0 st.expected sent
                      r.ordered;
                waiting = r.waiting;
                small = r.small;
              })
      ]

  restart-Ready :
      (st : ReorderState) (b : Backend) (seq : ℕ) (p : List ℕ) (now : ℕ)
      → Ready tag st b
      → tag p ≡ seq
      → st.expected ≤ seq
      → seq < last_seq
      → AreReady tag (restart accepts st b seq p now)
  unfolding restart
  restart-Ready st b seq p now r t le small =
      let up : next32 seq ≡ suc seq = next32-suc seq small in
      elim (write-cases accepts b p) [
        | inl (ok, sent) ↦
            rw (ok, restart)
              (record {
                started = r.started;
                ordered = Ascends-mono 0 _ (omega (arith, t, up)) (
                    sent-Ascends tag b (write_backend_packet accepts b p).0 st.expected p sent
                      r.ordered (omega (arith, t)));
                waiting = tt;
                small = omega (arith, up, small);
              })
        | inr (failed, sent) ↦
            rw (failed, restart)
              (record {
                started = r.started;
                ordered =
                    unsent-Ascends tag b (write_backend_packet accepts b p).0 st.expected sent
                      r.ordered;
                waiting = tt;
                small = r.small;
              })
      ]

  keep-Ready :
      (st : ReorderState) (b : Backend) (seq : ℕ) (p : List ℕ)
      → Ready tag st b
      → tag p ≡ seq
      → st.expected < seq
      → seq < last_seq
      → Ready tag (keep st seq p) b
  unfolding keep
  keep-Ready st b seq p r t lt small = elim (Option-cases (load seq st.pending)) [
    | inl nothing ↦
        rw (nothing, keep)
          (record {
            started = r.started;
            ordered = r.ordered;
            waiting = ((omega arith, t, small), r.waiting);
            small = r.small;
          })
    | inr (q, there) ↦ rw (there, keep) r
  ]

  module _ (window hold : ℤ) where
    hold_back-Ready :
        (st : ReorderState) (b : Backend) (seq : ℕ) (p : List ℕ) (now : ℕ)
        → Ready tag st b
        → tag p ≡ seq
        → st.expected < seq
        → seq < last_seq
        → AreReady tag (hold_back accepts window hold st b seq p now)
    unfolding hold_back
    hold_back-Ready st b seq p now r t lt small =
        let kept = keep-Ready st b seq p r t lt small in
        elim (Bool-cases (
          leb (window_size window) (length (keep st seq p).pending)
          || leb_ℤ hold (pos (now - (keep st seq p).last_drain)))) [
            | inl full ↦ rw (full, hold_back) (force_drain-Ready (keep st seq p) b now kept)
            | inr room ↦ rw (room, hold_back) kept
          ]

    place-Ready :
        (st : ReorderState) (b : Backend) (seq : ℕ) (p : List ℕ) (now : ℕ)
        → Ready tag st b
        → tag p ≡ seq
        → seq < last_seq
        → AreReady tag (place accepts window hold st b seq p now)
    unfolding place
    place-Ready st b seq p now r t small = elim (Bool-cases (ltb seq st.expected)) [
      | inl old ↦ rw (old, place) r
      | inr current ↦ elim (Bool-cases (seq == st.expected)) [
        | inl next ↦
            rw (current, next, place) (deliver-Ready st b p now r (ground arith) (ground arith))
        | inr ahead ↦
            elim (Bool-cases (ltb (window_size window % 2 ^ 32) (sub32 seq st.expected))) [
              | inl beyond ↦
                  rw (current, ahead, beyond, place)
                    (restart-Ready st b seq p now r t (ground arith) small)
              | inr within ↦
                  rw (current, ahead, within, place)
                    (hold_back-Ready st b seq p now r t (ground arith) small)
            ]
      ]
    ]

    pub reorder-Ready :
        (st : ReorderState) (b : Backend) (seq : ℕ) (p : List ℕ) (now : ℕ)
        → Ready tag st b
        → tag p ≡ seq
        → seq < last_seq
        → AreReady tag (reorder accepts window hold (st, b) seq p now)
    unfolding reorder
    reorder-Ready st b seq p now r t small =
        subst (λ (x : ReorderState). AreReady tag (place accepts window hold x b seq p now))
          (sym (initialize-started st seq now r.started)) (place-Ready st b seq p now r t small)

    -- The first packet of a session.
    pub reorder-fresh_state :
        (b : Backend) (seq : ℕ) (p : List ℕ) (now : ℕ)
        → b.sent ≡ []
        → tag p ≡ seq
        → seq < last_seq
        → AreReady tag (reorder accepts window hold (fresh_state, b) seq p now)
    unfolding reorder initialize
    reorder-fresh_state b seq p now e t small =
        place-Ready (initialize fresh_state seq now) b seq p now
          (record {
            started = refl;
            ordered =
                subst (λ (x : List (List ℕ)). Ascends 0 (map tag x) seq) (sym e) (omega arith);
            waiting = tt;
            small = omega (arith, small);
          })
          t small

    reorder_all-Ready :
        (c : ReorderState × Backend) (arrivals : List Arrival)
        → AreReady tag c
        → All (λ a. (tag a.payload ≡ a.seq) × (a.seq < last_seq)) arrivals
        → AreReady tag (reorder_all accepts window hold c arrivals)
    unfolding reorder_all
    reorder_all-Ready c [] r h = r
    reorder_all-Ready (st, b) (a ∷ rest) r h =
        reorder_all-Ready (reorder accepts window hold (st, b) a.seq a.payload a.now) rest
          (reorder-Ready st b a.seq a.payload a.now r h.0.0 h.0.1) h.1

    -- From the fresh state of a session, to which nothing was sent, on: for any window and hold time,
    -- any outcome of each write and any packets in any order, each tagged in its payload with the
    -- number it comes under and none as far as 2³² - 1: the numbers of the packets that the backend
    -- gets ascend strictly, so that they keep the order they were sent in and none is passed on
    -- twice. Once a packet has come, they lie below `expected`.
    pub reorder_all-Ascends :
        (stats : Stats) (arrivals : List Arrival)
        → All (λ a. (tag a.payload ≡ a.seq) × (a.seq < last_seq)) arrivals
        → let (st, b) =
            reorder_all accepts window hold
              (fresh_state, record { sent = []; stats = stats })
              arrivals in
          Ascends 0 (map tag b.sent) st.expected
    unfolding reorder_all
    reorder_all-Ascends stats [] h = omega arith
    reorder_all-Ascends stats (a ∷ rest) h =
        (reorder_all-Ready
          (reorder accepts window hold (fresh_state, record { sent = []; stats = stats }) a.seq
            a.payload a.now)
          rest
          (reorder-fresh_state (record { sent = []; stats = stats }) a.seq a.payload a.now refl
            h.0.0 h.0.1)
          h.1).ordered
