-- ===== src/Server/Reorder.antt =====
-- internal/server/server.go, writeUpstreamToBackend and forceDrainReorderLocked: packets of a
-- session that arrive over several lanes are put in order again.
pub mod Pending
pub mod Ready
pub mod Order
pub mod Bound
pub mod Counts
pub mod Catch
pub mod Keep
pub mod Complete
pub mod Delivery
pub mod Turn
use t2d.Base.{
  ℕ, zero, suc, ◌+◌, ◌-◌, ◌%◌, ◌^◌, List, [], ◌∷◌, Bool, true, false, not, ◌||◌, Option, none, some,
  length, ltb, leb, ◌==◌, if◌then◌else◌, min,
}
use t2d.Base.Int.{ℤ, pos, pos_part, leb_ℤ}
use t2d.Base.Maps.{Map, load, erase}
use t2d.Server.Backend.{Backend, write_backend_packet}

-- `map[uint32][]byte`
abbrev pub PendingMap : Type 0
PendingMap = Map (List ℕ)

-- `for seq := range state.pending { if !found || seq < minSeq … }`
pub min_seq : PendingMap → Option ℕ
min_seq [] = none
min_seq ((j, p) ∷ m) = elim (min_seq m) [ none ↦ some j | some k ↦ some (min j k) ]

-- Times are nanoseconds on a clock that does not go back.
pub record ReorderState : Type 0 where
  pub initialized : Bool
  pub expected : ℕ
  pub pending : PendingMap
  pub last_drain : ℕ

-- `&upstreamReorderState{pending: make(map[uint32][]byte)}`
abbrev pub fresh_state : ReorderState
fresh_state = record { initialized = false; expected = 0; pending = []; last_drain = 0 }

-- A packet as a lane hands it over: sequence number, payload, time.
pub record Arrival : Type 0 where
  pub seq : ℕ
  pub payload : List ℕ
  pub now : ℕ

abbrev pub next32 : ℕ → ℕ
next32 a = (a + 1) % 2 ^ 32

abbrev pub sub32 : ℕ → ℕ → ℕ
sub32 a b = (a + 2 ^ 32 - b) % 2 ^ 32

-- `max(1, s.upstreamReorderWindow)`
abbrev pub window_size : ℤ → ℕ
window_size window = if leb_ℤ (pos 1) window then pos_part window else 1

-- `if !state.initialized { … }`
pub initialize : ReorderState → ℕ → ℕ → ReorderState
initialize st seq now =
    if st.initialized
    then st
    else record st { initialized = true; expected = seq; last_drain = now }

-- `if _, exists := state.pending[seq]; !exists { state.pending[seq] = cp }`
pub keep : ReorderState → ℕ → List ℕ → ReorderState
keep st seq payload = elim (load seq st.pending) [
  | none ↦ record st { pending = (seq, payload) ∷ st.pending }
  | some _ ↦ st
]

module _ (accepts : List (List ℕ) → List ℕ → Bool) where
  -- The loop that both functions end with. Each round takes an entry of the map, so one more round
  -- than it has entries is enough.
  pub drain : ℕ → ReorderState → Backend → ℕ → ReorderState × Backend
  drain zero st b now = (st, b)
  drain (suc fuel) st b now = elim (load st.expected st.pending) [
    | none ↦ (st, b)
    | some payload ↦
        let taken = record st { pending = erase st.expected st.pending } in
        let (b', ok) = write_backend_packet accepts b payload in
        let rest =
          drain fuel (record taken { expected = next32 st.expected; last_drain = now }) b' now in
        if ok then rest else (taken, b')
  ]

  pub drain_all : ReorderState → Backend → ℕ → ReorderState × Backend
  drain_all st b now = drain (suc (length st.pending)) st b now

  -- `forceDrainReorderLocked`
  pub force_drain : ReorderState → Backend → ℕ → ReorderState × Backend
  unfolding drain_all
  force_drain st b now = elim (min_seq st.pending) [
    | none ↦ (st, b)
    | some k ↦ drain_all (record st { expected = k }) b now
  ]

  -- The packet that is expected next, and what waits behind it.
  pub deliver : ReorderState → Backend → List ℕ → ℕ → ReorderState × Backend
  unfolding drain_all
  deliver st b payload now =
      let (b', ok) = write_backend_packet accepts b payload in
      if ok
      then drain_all (record st { expected = next32 st.expected; last_drain = now }) b' now
      else (st, b')

  -- A packet beyond the window: give up what is missing.
  pub restart : ReorderState → Backend → ℕ → List ℕ → ℕ → ReorderState × Backend
  restart st b seq payload now =
      let cleared = record st { pending = [] } in
      let (b', ok) = write_backend_packet accepts b payload in
      if ok then (record cleared { expected = next32 seq; last_drain = now }, b') else (cleared, b')

  module _ (window hold : ℤ) where
    -- A packet within the window waits; a full window or a long wait forces the queue out.
    pub hold_back : ReorderState → Backend → ℕ → List ℕ → ℕ → ReorderState × Backend
    unfolding keep force_drain
    hold_back st b seq payload now =
        let st' = keep st seq payload in
        if leb (window_size window) (length st'.pending) || leb_ℤ hold (pos (now - st'.last_drain))
        then force_drain st' b now
        else (st', b)

    -- What `writeUpstreamToBackend` does from the first comparison on.
    pub place : ReorderState → Backend → ℕ → List ℕ → ℕ → ReorderState × Backend
    unfolding deliver restart hold_back
    place st b seq payload now =
        if ltb seq st.expected
        then (st, b)
        else if seq == st.expected
        then deliver st b payload now
        else if ltb (window_size window % 2 ^ 32) (sub32 seq st.expected)
        then restart st b seq payload now
        else hold_back st b seq payload now

    -- `writeUpstreamToBackend` with striping, on the state of the session.
    unfoldable pub reorder : ReorderState × Backend → ℕ → List ℕ → ℕ → ReorderState × Backend
    unfolding place initialize
    reorder (st, b) seq payload now = place (initialize st seq now) b seq payload now

    pub reorder_all : ReorderState × Backend → List Arrival → ReorderState × Backend
    reorder_all c [] = c
    reorder_all c (a ∷ rest) = reorder_all (reorder c a.seq a.payload a.now) rest
