-- ===== src/Server/Reorder/Turn.antt =====
-- internal/server/server.go, writeUpstreamToBackend: packets that come one after another.
use t2d.Base.{
  ℕ, suc, ◌<◌, ◌≡◌, refl, ap, ◌⊎◌, inl, inr, List, [], ◌∷◌, ◌++◌, Bool, true, false, arith, length,
  ==_self, ge→ltb, subst,
}
use t2d.Base.Int.{ℤ}
use t2d.Base.Maps.{load}
use t2d.Server.Backend.{Backend, write_backend_packet}
use t2d.Server.Reorder.{ReorderState, initialize, drain_all, place, deliver, reorder, next32}
use t2d.Server.Reorder.Ready.{last_seq, next32-suc, drain-none, initialize-started}
use t2d.Server.Reorder.Catch.{write_taken}

-- The state of a session of which nothing waits and `seq` is the number to come.
abbrev pub InTurn : ℕ → ReorderState → Type 0
InTurn seq st =
    (st.pending ≡ []) × ((st.initialized ≡ false) ⊎ ((st.initialized ≡ true) × (st.expected ≡ seq)))

-- What a packet in turn leads to.
abbrev pub Turned : ℕ → List (List ℕ) → List ℕ → ReorderState × Backend → Type 0
Turned seq sent payload c = InTurn (suc seq) c.0 × (c.1.sent ≡ sent ++ (payload ∷ []))

module _ (accepts : List (List ℕ) → List ℕ → Bool)
    (all_taken : (sent : List (List ℕ)) (p : List ℕ) → accepts sent p ≡ true) where
  drain_all-empty :
      (st : ReorderState) (b : Backend) (now : ℕ)
      → st.pending ≡ []
      → drain_all accepts st b now ≡ (st, b)
  unfolding drain_all load
  drain_all-empty st b now e =
      drain-none accepts (length st.pending) st b now (ap (load st.expected) e)

  deliver-Turned :
      (st : ReorderState) (b : Backend) (payload : List ℕ) (now : ℕ)
      → st.pending ≡ []
      → st.initialized ≡ true
      → st.expected < last_seq
      → Turned st.expected b.sent payload (deliver accepts st b payload now)
  unfolding deliver
  deliver-Turned st b payload now none_wait started small =
      let w = write_taken (λ n. []) 0 0 0 [] accepts all_taken b payload in
      let next : ReorderState = record st { expected = next32 st.expected; last_drain = now } in
      rw (w.0, drain_all-empty next (write_backend_packet accepts b payload).0 now none_wait)
        ((none_wait, inr (started, next32-suc st.expected small)), w.1)

  module _ (window hold : ℤ) where
    place-Turned :
        (st : ReorderState) (b : Backend) (payload : List ℕ) (now : ℕ)
        → st.pending ≡ []
        → st.initialized ≡ true
        → st.expected < last_seq
        → Turned st.expected b.sent payload (place accepts window hold st b st.expected payload now)
    unfolding place
    place-Turned st b payload now none_wait started small =
        rw (ge→ltb st.expected st.expected (omega arith), ==_self st.expected)
          (deliver-Turned st b payload now none_wait started small)

    pub reorder-Turned :
        (st : ReorderState) (b : Backend) (seq : ℕ) (payload : List ℕ) (now : ℕ)
        → InTurn seq st
        → seq < last_seq
        → Turned seq b.sent payload (reorder accepts window hold (st, b) seq payload now)
    unfolding reorder initialize
    reorder-Turned st b seq payload now (none_wait, inl fresh) small = rw fresh (
        place-Turned (record st { initialized = true; expected = seq; last_drain = now }) b payload
          now none_wait refl small)
    reorder-Turned st b seq payload now (none_wait, inr (started, e)) small =
        subst (λ q. Turned q b.sent payload (reorder accepts window hold (st, b) q payload now)) e
          (rw (initialize-started st st.expected now started)
            (place-Turned st b payload now none_wait started (omega (arith, e, small))))
