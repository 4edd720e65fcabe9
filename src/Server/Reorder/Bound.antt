-- ===== src/Server/Reorder/Bound.antt =====
-- internal/server/server.go, writeUpstreamToBackend: how many packets wait at most.
use t2d.Base.{
  ℕ, zero, suc, ◌-◌, ◌%◌, ◌^◌, ◌≤◌, ◌<◌, ◌≡◌, refl, List, [], ◌∷◌, Bool, true, false, some, inl,
  inr, arith, length, Bool-cases, Option-cases, ltb, leb, ◌==◌, ◌||◌,
}
use t2d.Base.Int.{ℤ, pos, negsuc, leb_ℤ}
use t2d.Server.Backend.{Backend, write_backend_packet, write-cases}
use t2d.Base.Maps.{load, erase}
use t2d.Server.Reorder.{
  min_seq, ReorderState, Arrival, sub32, window_size, drain, drain_all, force_drain, initialize,
  deliver, restart, keep, hold_back, reorder, reorder_all, place, next32,
}
use t2d.Server.Reorder.Pending.{length-erase-found, min_seq-load, min_seq-none}
use t2d.Server.Reorder.Ready.{drain-found, drain-failed, drain-none}

initialize-pending :
    (st : ReorderState) (seq now : ℕ) → (initialize st seq now).pending ≡ st.pending
unfolding initialize
initialize-pending st seq now = ground arith

pub window_size-pos : (window : ℤ) → 0 < window_size window
window_size-pos (pos n) = ground arith
window_size-pos (negsuc n) = ground arith

length-keep :
    (st : ReorderState) (seq : ℕ) (p : List ℕ)
    → length (keep st seq p).pending ≤ suc (length st.pending)
unfolding keep
length-keep st seq p = ground arith

below : (n w : ℕ) (late : Bool) → (leb w n || late) ≡ false → n < w
below n w true h = ground arith
below n w false h = ground arith

module _ (accepts : List (List ℕ) → List ℕ → Bool) where
  -- One round takes an entry, given that later rounds add none.
  drain-round :
      (fuel : ℕ) (st : ReorderState) (b : Backend) (now : ℕ) {p : List ℕ}
      → ((st' : ReorderState) (b' : Backend)
          → length (drain accepts fuel st' b' now).0.pending ≤ length st'.pending)
      → load st.expected st.pending ≡ some p
      → length (drain accepts (suc fuel) st b now).0.pending < length st.pending
  drain-round fuel st b now {p} later found =
      let less = length-erase-found st.expected st.pending found in
      elim (write-cases accepts b p) [
        | inl (ok, _) ↦ rw (drain-found accepts fuel st b now found ok) (
            omega (
              arith,
              less,
              later
                  (record st {
                    pending = erase st.expected st.pending;
                    expected = next32 st.expected;
                    last_drain = now;
                  })
                  (write_backend_packet accepts b p).0,
            ))
        | inr (failed, _) ↦ rw (drain-failed accepts fuel st b now found failed) less
      ]

  drain-shrinks :
      (fuel : ℕ) (st : ReorderState) (b : Backend) (now : ℕ)
      → length (drain accepts fuel st b now).0.pending ≤ length st.pending
  unfolding drain
  drain-shrinks zero st b now = omega arith
  drain-shrinks (suc fuel) st b now = elim (Option-cases (load st.expected st.pending)) [
    | inl nothing ↦ rw (drain-none accepts fuel st b now nothing) (omega arith)
    | inr (p, found) ↦
        omega (arith, drain-round fuel st b now (λ st' b'. drain-shrinks fuel st' b' now) found)
  ]

  force_drain-takes :
      (st : ReorderState) (b : Backend) (now : ℕ)
      → length (force_drain accepts st b now).0.pending ≤ length st.pending - 1
  unfolding force_drain drain_all
  force_drain-takes st b now = elim (Option-cases (min_seq st.pending)) [
    | inl nothing ↦ rw (nothing, force_drain) (rw (min_seq-none st.pending nothing) (omega arith))
    | inr (k, least) ↦
        let (p, there) = min_seq-load st.pending least in
        let less =
          drain-round (length st.pending) (record st { expected = k }) b now
            (λ st' b'. drain-shrinks (length st.pending) st' b' now) there in
        rw (least, force_drain) (omega (arith, less))
  ]

  deliver-shrinks :
      (st : ReorderState) (b : Backend) (p : List ℕ) (now : ℕ)
      → length (deliver accepts st b p now).0.pending ≤ length st.pending
  unfolding deliver drain_all
  deliver-shrinks st b p now = elim (write-cases accepts b p) [
    | inl (ok, _) ↦
        rw (ok, deliver)
          (drain-shrinks (suc (length st.pending)) _ (write_backend_packet accepts b p).0 now)
    | inr (failed, _) ↦ rw (failed, deliver) (omega arith)
  ]

  restart-pending :
      (st : ReorderState) (b : Backend) (seq : ℕ) (p : List ℕ) (now : ℕ)
      → (restart accepts st b seq p now).0.pending ≡ []
  unfolding restart
  restart-pending st b seq p now = elim (write-cases accepts b p) [
    | inl (ok, _) ↦ rw (ok, restart) refl
    | inr (failed, _) ↦ rw (failed, restart) refl
  ]

  module _ (window hold : ℤ) where
    hold_back-bound :
        (st : ReorderState) (b : Backend) (seq : ℕ) (p : List ℕ) (now : ℕ)
        → length st.pending < window_size window
        → length (hold_back accepts window hold st b seq p now).0.pending < window_size window
    unfolding hold_back
    hold_back-bound st b seq p now h =
        let st' = keep st seq p in
        let one_more = length-keep st seq p in
        elim (Bool-cases (
          leb (window_size window) (length st'.pending)
          || leb_ℤ hold (pos (now - st'.last_drain)))) [
            | inl full ↦
                rw (full, hold_back) (omega (arith, force_drain-takes st' b now, one_more, h))
            | inr room ↦
                rw (room, hold_back)
                  (below (length st'.pending) (window_size window)
                    (leb_ℤ hold (pos (now - st'.last_drain))) room)
          ]

    place-bound :
        (st : ReorderState) (b : Backend) (seq : ℕ) (p : List ℕ) (now : ℕ)
        → length st.pending < window_size window
        → length (place accepts window hold st b seq p now).0.pending < window_size window
    unfolding place
    place-bound st b seq p now h = elim (Bool-cases (ltb seq st.expected)) [
      | inl old ↦ rw (old, place) h
      | inr current ↦ elim (Bool-cases (seq == st.expected)) [
        | inl next ↦ rw (current, next, place) (omega (arith, deliver-shrinks st b p now, h))
        | inr ahead ↦
            elim (Bool-cases (ltb (window_size window % 2 ^ 32) (sub32 seq st.expected))) [
              | inl beyond ↦
                  rw (current, ahead, beyond, place)
                    (rw (restart-pending st b seq p now) (window_size-pos window))
              | inr within ↦ rw (current, ahead, within, place) (hold_back-bound st b seq p now h)
            ]
      ]
    ]

    -- For any window and hold time, any outcome of each write and any packets, in whatever order and
    -- with whatever numbers: from a state in which fewer packets wait than the window is wide (at
    -- least one), that is so again once they have all come.
    pub reorder_all-pending_bound :
        (st : ReorderState) (b : Backend) (arrivals : List Arrival)
        → length st.pending < window_size window
        → length (reorder_all accepts window hold (st, b) arrivals).0.pending < window_size window
    unfolding reorder_all reorder
    reorder_all-pending_bound st b [] h = h
    reorder_all-pending_bound st b (a ∷ rest) h =
        let c = reorder accepts window hold (st, b) a.seq a.payload a.now in
        reorder_all-pending_bound c.0 c.1 rest (
          place-bound (initialize st a.seq a.now) b a.seq a.payload a.now
            (rw (initialize-pending st a.seq a.now) h))
