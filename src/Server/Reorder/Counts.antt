-- ===== src/Server/Reorder/Counts.antt =====
-- internal/server/server.go, writeUpstreamToBackend: the counter of active sessions.
use t2d.Base.{
  ℕ, zero, suc, ◌-◌, ◌%◌, ◌^◌, ◌≡◌, refl, ◌∙◌, inl, inr, List, Bool, arith, length, Bool-cases,
  Option-cases, ltb, ◌==◌, leb, ◌||◌,
}
use t2d.Base.Int.{ℤ, pos, leb_ℤ}
use t2d.Server.Backend.{Backend, write_backend_packet}
use t2d.Base.Maps.{load}
use t2d.Server.Reorder.{
  min_seq, ReorderState, sub32, window_size, drain, drain_all, force_drain, initialize, deliver,
  restart, keep, hold_back, place, reorder,
}
use t2d.Stats

abbrev pub active : Backend → ℕ
active b = b.stats.active_sessions

module _ (accepts : List (List ℕ) → List ℕ → Bool) where
  pub write_backend_packet_active :
      (b : Backend) (p : List ℕ) → active (write_backend_packet accepts b p).0 ≡ active b
  unfolding write_backend_packet Stats.add_packets_sent Stats.add_bytes_sent Stats.add_error
  write_backend_packet_active b p = ground arith

  drain_active :
      (fuel : ℕ) (st : ReorderState) (b : Backend) (now : ℕ)
      → active (drain accepts fuel st b now).1 ≡ active b
  unfolding drain
  drain_active zero st b now = refl
  drain_active (suc fuel) st b now = elim (Option-cases (load st.expected st.pending)) [
    | inl nothing ↦ rw (nothing, drain) refl
    | inr (p, there) ↦ elim (Bool-cases (write_backend_packet accepts b p).1) [
      | inl taken ↦
          rw (there, drain)
            (rw taken (
              drain_active fuel _ (write_backend_packet accepts b p).0 now
              ∙ write_backend_packet_active b p))
      | inr refused ↦ rw (there, drain) (rw refused (write_backend_packet_active b p))
    ]
  ]

  force_drain_active :
      (st : ReorderState) (b : Backend) (now : ℕ)
      → active (force_drain accepts st b now).1 ≡ active b
  unfolding force_drain drain_all
  force_drain_active st b now = elim (Option-cases (min_seq st.pending)) [
    | inl nothing ↦ rw (nothing, force_drain) refl
    | inr (k, least) ↦
        rw (least, force_drain)
          (drain_active (suc (length st.pending)) (record st { expected = k }) b now)
  ]

  deliver_active :
      (st : ReorderState) (b : Backend) (p : List ℕ) (now : ℕ)
      → active (deliver accepts st b p now).1 ≡ active b
  unfolding deliver drain_all
  deliver_active st b p now = elim (Bool-cases (write_backend_packet accepts b p).1) [
    | inl taken ↦
        rw (taken, deliver)
          (drain_active (suc (length st.pending)) _ (write_backend_packet accepts b p).0 now
            ∙ write_backend_packet_active b p)
    | inr refused ↦ rw (refused, deliver) (write_backend_packet_active b p)
  ]

  restart_active :
      (st : ReorderState) (b : Backend) (seq : ℕ) (p : List ℕ) (now : ℕ)
      → active (restart accepts st b seq p now).1 ≡ active b
  unfolding restart
  restart_active st b seq p now = elim (Bool-cases (write_backend_packet accepts b p).1) [
    | inl taken ↦ rw (taken, restart) (write_backend_packet_active b p)
    | inr refused ↦ rw (refused, restart) (write_backend_packet_active b p)
  ]

  module _ (window hold : ℤ) where
    hold_back_active :
        (st : ReorderState) (b : Backend) (seq : ℕ) (p : List ℕ) (now : ℕ)
        → active (hold_back accepts window hold st b seq p now).1 ≡ active b
    unfolding hold_back
    hold_back_active st b seq p now =
        let st' = keep st seq p in
        elim (Bool-cases (
          leb (window_size window) (length st'.pending)
          || leb_ℤ hold (pos (now - st'.last_drain)))) [
            | inl full ↦ rw (full, hold_back) (force_drain_active st' b now)
            | inr room ↦ rw (room, hold_back) refl
          ]

    pub reorder_active :
        (st : ReorderState) (b : Backend) (seq : ℕ) (p : List ℕ) (now : ℕ)
        → active (reorder accepts window hold (st, b) seq p now).1 ≡ active b
    unfolding reorder place
    reorder_active st0 b seq p now =
        let st = initialize st0 seq now in
        elim (Bool-cases (ltb seq st.expected)) [
          | inl old ↦ rw (old, place) refl
          | inr current ↦ elim (Bool-cases (seq == st.expected)) [
            | inl next ↦ rw (current, next, place) (deliver_active st b p now)
            | inr ahead ↦
                elim (Bool-cases (ltb (window_size window % 2 ^ 32) (sub32 seq st.expected))) [
                  | inl beyond ↦ rw (current, ahead, beyond, place) (restart_active st b seq p now)
                  | inr within ↦
                      rw (current, ahead, within, place) (hold_back_active st b seq p now)
                ]
          ]
        ]
