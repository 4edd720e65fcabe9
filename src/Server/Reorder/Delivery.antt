-- ===== src/Server/Reorder/Delivery.antt =====
-- internal/server/server.go, writeUpstreamToBackend: a session from its first packet on, on a network
-- that loses nothing.
use mathlib.Core.List.{Memᴰ}
use mathlib.Core.List.Memᴰ
use t2d.Base.{
  ℕ, ◌+◌, ◌^◌, ◌≤◌, ◌<◌, ◌≡◌, refl, sym, ap, subst, ◌∙◌, inl, inr, List, [], ◌∷◌, Bool, true, arith,
  append-nil, trichotomy,
}
use mathlib.Core.Option.{none-ne-some}
use t2d.Base.Int.{ℤ, pos}
use t2d.Base.Maps.{load}
use t2d.Stats.{Stats}
use t2d.Server.Backend.{Backend}
use t2d.Server.Reorder.{fresh_state, Arrival, window_size, initialize, reorder, reorder_all}
use t2d.Server.Reorder.Bound.{window_size-pos}
use t2d.Server.Reorder.Ready.{last_seq}
use t2d.Server.Reorder.Catch.{IsCaughtUp, payloads}
use t2d.Server.Reorder.Complete.{
  ArePaced, seen_after, not_seen, reorder-IsCaughtUp, reorder_all-IsCaughtUp,
}

module _ (f : ℕ → List ℕ) (accepts : List (List ℕ) → List ℕ → Bool)
    (all_taken : (sent : List (List ℕ)) (p : List ℕ) → accepts sent p ≡ true) (window : ℤ)
    (hold : ℕ) where
  -- The state that the first packet finds.
  initialize-IsCaughtUp :
      (seq now : ℕ) (b : Backend)
      → seq < last_seq
      → IsCaughtUp f seq now (window_size window) b.sent [] (initialize fresh_state seq now, b)
  unfolding initialize load
  initialize-IsCaughtUp seq now b small = record {
    started = refl;
    since = omega arith;
    count = 0;
    reached = omega arith;
    small = omega arith;
    sent = sym (append-nil b.sent);
    once = tt;
    waits = λ k p h. absurd (none-ne-some p h);
    covered = λ k m. absurd (Memᴰ.not-nil m);
    arrived = λ k low high. absurd (omega (arith, low, high));
  }

  pub reorder_fresh-IsCaughtUp :
      (seq now : ℕ) (b : Backend)
      → window_size window < 2 ^ 32
      → seq < last_seq
      → 0 < hold
      → IsCaughtUp f seq now
          (window_size window)
          b.sent
          (seq ∷ [])
          (reorder accepts window (pos hold) (fresh_state, b) seq (f seq) now)
  unfolding reorder initialize
  reorder_fresh-IsCaughtUp seq now b narrow small some_time =
      reorder-IsCaughtUp f seq now (window_size window) b.sent accepts all_taken window hold refl
        narrow seq now [] (initialize fresh_state seq now) b
        (λ k low high. absurd (omega (arith, low, high, window_size-pos window))) small
        (omega arith) (omega arith) (initialize-IsCaughtUp seq now b small)

  -- On a session's first packet, whose number is below 2³² - 1, and any further packets, with a window
  -- below 2³² and writes that succeed: if each packet has the payload of its number, no packet comes
  -- while another is missing that lies a window's width or more before it, all come within the hold
  -- time of the first, and the numbers from the first packet's on, `n` of them, are among the packets
  -- and none beyond is, then the backend gets exactly the payloads of these numbers, each once and in
  -- order, however often and in whatever order the packets come.
  pub reorder_all-payloads :
      (first : Arrival) (rest : List Arrival) (stats : Stats) (n : ℕ)
      → let seqs = seen_after (first.seq ∷ []) rest in
        window_size window < 2 ^ 32
        → 0 < hold
        → first.payload ≡ f first.seq
        → first.seq < last_seq
        → ArePaced f first.seq first.now (window_size window) hold (first.seq ∷ []) rest
        → ((k : ℕ) → first.seq ≤ k → k < first.seq + n → Memᴰ k seqs)
        → ((k : ℕ) → Memᴰ k seqs → k < first.seq + n)
        → (reorder_all accepts window
            (pos hold)
            (fresh_state, record { sent = []; stats = stats })
            (first ∷ rest)).1.sent
          ≡ payloads f first.seq n
  unfolding reorder_all
  reorder_all-payloads first rest stats n narrow some_time same small paced there beyond =
      let w = window_size window in
      let seqs = seen_after (first.seq ∷ []) rest in
      let start : Backend = record { sent = []; stats = stats } in
      let c0 =
        subst
          (λ p.
            IsCaughtUp f first.seq first.now w [] (first.seq ∷ [])
              (reorder accepts window (pos hold) (fresh_state, start) first.seq p first.now))
          (sym same) (reorder_fresh-IsCaughtUp first.seq first.now start narrow small some_time) in
      let (st, b) = reorder_all accepts window (pos hold) (fresh_state, start) (first ∷ rest) in
      let c : IsCaughtUp f first.seq first.now w [] seqs (st, b) =
        reorder_all-IsCaughtUp f first.seq first.now w [] accepts all_taken window hold refl narrow
          rest (first.seq ∷ []) _ _ paced c0 in
      let all : c.count ≡ n = elim (trichotomy c.count n) [
        | inl (inl fewer) ↦ absurd (
            not_seen f first.seq first.now w [] accepts all_taken window hold refl narrow seqs st b
              c (there st.expected (omega (arith, c.reached)) (omega (arith, c.reached, fewer))))
        | inl (inr equal) ↦ equal
        | inr more ↦ absurd (
            omega (
              arith,
              beyond (first.seq + n)
                  (c.arrived (first.seq + n) (omega arith) (omega (arith, c.reached, more))),
            ))
      ] in
      c.sent ∙ ap (payloads f first.seq) all
