-- ===== src/Server/Reorder/Complete.antt =====
-- internal/server/server.go, writeUpstreamToBackend on a network that loses nothing.
use mathlib.Core.List.{Memᴰ}
use mathlib.Core.List.Memᴰ
use t2d.Base.{
  ℕ, suc, ◌+◌, ◌-◌, ◌%◌, ◌^◌, ◌≤◌, ◌<◌, ◌≡◌, refl, sym, subst, inl, inr, List, [], ◌∷◌, Bool, true,
  false, none, arith, length, Option-cases, Bool-cases, ◌==◌, ltb, leb, ◌||◌,
}
use t2d.Base.Int.{ℤ, pos, leb_ℤ}
use t2d.Base.Maps.{load, erase_absent, length-le_range}
use t2d.Server.Backend.{Backend, write_backend_packet}
use t2d.Server.Reorder.{
  ReorderState, Arrival, next32, sub32, window_size, drain_all, deliver, keep, hold_back, place,
  reorder, reorder_all,
}
use t2d.Server.Reorder.Ready.{last_seq, initialize-started}
use t2d.Server.Reorder.Keep.{keep-expected, Caught-lower, Caught-again, keep-Caught}
use t2d.Server.Reorder.Catch.{Caught, IsCaughtUp, Caught-next, write_taken, drain-IsCaughtUp}

-- Neither of the reasons to force the queue out.
not_forced :
    (w n hold waited : ℕ)
    → n < w
    → waited < hold
    → (leb w n || leb_ℤ (pos hold) (pos waited)) ≡ false
not_forced w n hold waited room soon = ground arith

not_beyond :
    (w expected seq : ℕ)
    → w < 2 ^ 32
    → expected < seq
    → seq < expected + w
    → seq < 2 ^ 32
    → ltb (w % 2 ^ 32) (sub32 seq expected) ≡ false
not_beyond w expected seq narrow behind near small =
    let gap : sub32 seq expected ≡ seq - expected = omega arith in
    let whole : w % 2 ^ 32 ≡ w = omega arith in rw (gap, whole) (ground arith)

-- The numbers of packets that have come, the last first.
abbrev pub seen_after : List ℕ → List Arrival → List ℕ
seen_after seen [] = seen
seen_after seen (a ∷ rest) = seen_after (a.seq ∷ seen) rest

module _ (f : ℕ → List ℕ) (e t w hold : ℕ) where
  -- Packets with the payloads `f` that come between the times `t` and `t + hold`, none of them before
  -- one from `e` on that lies `w` or more before it.
  abbrev pub ArePaced : List ℕ → List Arrival → Type 0
  ArePaced seen [] = Unit
  ArePaced seen (a ∷ rest) =
      ((a.payload ≡ f a.seq)
        × (a.seq < last_seq)
        × (t ≤ a.now)
        × (a.now < t + hold)
        × ((k : ℕ) → e ≤ k → k + w ≤ a.seq → Memᴰ k seen))
      × ArePaced (a.seq ∷ seen) rest

module _ (f : ℕ → List ℕ) (e t w : ℕ) (base : List (List ℕ)) where
  module _ (accepts : List (List ℕ) → List ℕ → Bool)
      (all_taken : (sent : List (List ℕ)) (p : List ℕ) → accepts sent p ≡ true) (window : ℤ)
      (hold : ℕ) (width : window_size window ≡ w) (narrow : w < 2 ^ 32) where
    -- The window does not fill up, and the hold time does not pass.
    hold_back-IsCaughtUp :
        (seq now : ℕ) (seen : List ℕ) (st : ReorderState) (b : Backend)
        → st.expected < seq
        → seq < st.expected + w
        → seq < last_seq
        → t ≤ now
        → now < t + hold
        → IsCaughtUp f e t w base seen (st, b)
        → IsCaughtUp f e t w base
            (seq ∷ seen)
            (hold_back accepts window (pos hold) st b seq (f seq) now)
    unfolding hold_back
    hold_back-IsCaughtUp seq now seen st b ahead near small later soon c =
        let c' = keep-Caught f e t w base seq seen st b ahead near small c in
        let st' = keep st seq (f seq) in
        let few : length st'.pending ≤ w - 1 =
          length-le_range (w - 1) (suc st.expected) st'.pending c'.once (λ k p h.
            let (_, low, high, _, _) = c'.waits k p h in
            let same = keep-expected st seq (f seq) in (low, omega (arith, high, same, near))) in
        let calm =
          not_forced (window_size window) (length st'.pending) hold (now - st'.last_drain)
            (omega (arith, width, few, near, ahead)) (omega (arith, c'.since, soon)) in
        let same : Caught f e t w base (suc st'.expected) (seq ∷ seen) st' b =
          subst (λ i. Caught f e t w base (suc i) (seq ∷ seen) st' b)
            (sym (keep-expected st seq (f seq))) c' in
        rw (calm, hold_back) same

    deliver-IsCaughtUp :
        (now : ℕ) (seen : List ℕ) (st : ReorderState) (b : Backend)
        → st.expected < last_seq
        → t ≤ now
        → IsCaughtUp f e t w base seen (st, b)
        → IsCaughtUp f e t w base (st.expected ∷ seen) (deliver accepts st b (f st.expected) now)
    unfolding deliver drain_all
    deliver-IsCaughtUp now seen st b small later c =
        let seen' = st.expected ∷ seen in
        let absent : load st.expected st.pending ≡ none =
          elim (Option-cases (load st.expected st.pending)) [
            | inl nothing ↦ nothing
            | inr (p, there) ↦
                let (_, low, _, _, _) = c.waits st.expected p there in absurd (omega (arith, low))
          ] in
        let lower = Caught-lower f e t w base st.expected seen st b c in
        let next =
          Caught-next f e t w base accepts all_taken seen seen' st b now later small
            (Memᴰ.head refl) (λ k m. Memᴰ.tail m)
            (λ k miss m. elim (Memᴰ.cases_cons m) [ inl q ↦ absurd (ground arith) | inr old ↦ old ])
            lower in
        rw ((write_taken f e t w base accepts all_taken b (f st.expected)).0, deliver)
          (drain-IsCaughtUp f e t w base accepts all_taken (suc (length st.pending)) seen' _ _ now
            (omega arith) later
            (subst
              (λ m.
                Caught f e t w base (next32 st.expected) seen'
                  (record st { pending = m; expected = next32 st.expected; last_drain = now })
                  (write_backend_packet accepts b (f st.expected)).0)
              (erase_absent st.expected st.pending absent) next))

    -- A number that is expected, or beyond it, and that was not seen.
    pub not_seen :
        (seen : List ℕ) (st : ReorderState) (b : Backend)
        → IsCaughtUp f e t w base seen (st, b)
        → Memᴰ st.expected seen
        → ⊥
    not_seen seen st b c m = elim (c.covered st.expected m) [
      | inl below ↦ omega (arith, below)
      | inr (p, there) ↦ let (_, low, _, _, _) = c.waits st.expected p there in omega (arith, low)
    ]

    pub reorder-IsCaughtUp :
        (seq now : ℕ) (seen : List ℕ) (st : ReorderState) (b : Backend)
        → ((k : ℕ) → e ≤ k → k + w ≤ seq → Memᴰ k seen)
        → seq < last_seq
        → t ≤ now
        → now < t + hold
        → IsCaughtUp f e t w base seen (st, b)
        → IsCaughtUp f e t w base
            (seq ∷ seen)
            (reorder accepts window (pos hold) (st, b) seq (f seq) now)
    unfolding reorder place
    reorder-IsCaughtUp seq now seen st b paced small later soon c =
        rw (initialize-started st seq now c.started) (elim (Bool-cases (ltb seq st.expected)) [
          | inl old ↦
              rw (old, place)
                (Caught-again f e t w base (suc st.expected) seq seen st b (inl (ground arith)) c)
          | inr current ↦ elim (Bool-cases (seq == st.expected)) [
            | inl next ↦
                let here : st.expected ≡ seq = ground arith in
                rw (current, next, place)
                  (subst (λ i. IsCaughtUp f e t w base (i ∷ seen) (deliver accepts st b (f i) now))
                    here (deliver-IsCaughtUp now seen st b (omega (arith, here)) later c))
            | inr ahead ↦
                let behind : st.expected < seq = ground arith in
                let near : seq < st.expected + w = elim (Bool-cases (ltb seq (st.expected + w))) [
                  | inl below ↦ ground arith
                  | inr beyond ↦ absurd (
                      not_seen seen st b c
                        (paced st.expected (omega (arith, c.reached)) (ground arith)))
                ] in
                let within =
                  not_beyond (window_size window) st.expected seq (omega (arith, width, narrow))
                    behind (omega (arith, width, near)) (omega (arith, small)) in
                rw (current, ahead, within, place)
                  (hold_back-IsCaughtUp seq now seen st b behind near small later soon c)
          ]
        ])

    pub reorder_all-IsCaughtUp :
        (arrivals : List Arrival) (seen : List ℕ) (st : ReorderState) (b : Backend)
        → ArePaced f e t w hold seen arrivals
        → IsCaughtUp f e t w base seen (st, b)
        → IsCaughtUp f e t w base
            (seen_after seen arrivals)
            (reorder_all accepts window (pos hold) (st, b) arrivals)
    unfolding reorder_all
    reorder_all-IsCaughtUp [] seen st b h c = c
    reorder_all-IsCaughtUp (a ∷ rest) seen st b h c =
        let (same, small, later, soon, paced) = h.0 in
        let next = reorder-IsCaughtUp a.seq a.now seen st b paced small later soon c in
        reorder_all-IsCaughtUp rest (a.seq ∷ seen) _ _ h.1 (
          subst
            (λ p.
              IsCaughtUp f e t w base (a.seq ∷ seen)
                (reorder accepts window (pos hold) (st, b) a.seq p a.now))
            (sym same) next)
