-- ===== src/Server/Sessions/Serve.antt =====
-- internal/server/server.go, handleUpstreamPacket: what the packets of a session do to it, and what
-- those of the others do not.
use mathlib.Core.Option.{some-injective}
use t2d.Base.{
  ℕ, ◌<◌, ◌≡◌, ◌∙◌, inl, inr, List, Bool, true, false, none, some, arith, Bool-cases, ◌==◌,
  Option-cases,
}
use t2d.Base.Maps.{load, load-store_if}
use t2d.Stats.{Stats}
use t2d.Server.Reorder.Turn.{InTurn}
use t2d.Server.Sessions.{
  SessionTable, change_object, update_last_active, add_session, find_session, reorder_state,
}

-- The map holds sessions that were made, under their own numbers.
pub record IsTable (s : SessionTable) : Type 0 where
  pub named : (sid p : ℕ) → load sid s.sessions ≡ some p → (s.objects p).session_id ≡ sid
  pub used : (sid p : ℕ) → load sid s.sessions ≡ some p → p < s.allocated

-- The session stands at `p` and has passed on `sent`; with striping, what comes under `seq` is next.
pub record Serves (striped : Bool) (sid p seq : ℕ) (sent : List (List ℕ)) (s : SessionTable)
    : Type 0 where
  pub table : IsTable s
  pub there : load sid s.sessions ≡ some p
  pub passed : (s.objects p).sent ≡ sent
  pub turn : striped ≡ true → InTurn seq (reorder_state (load sid s.upstream_reorder_states))

-- No session has the number, and nothing is left of one.
pub record Awaits (sid : ℕ) (s : SessionTable) : Type 0 where
  pub table : IsTable s
  pub absent : load sid s.sessions ≡ none
  pub stale : load sid s.upstream_reorder_states ≡ none

-- The counters do not matter.
pub Serves-stats :
    {striped : Bool} {sid p seq : ℕ} {sent : List (List ℕ)} {s : SessionTable} (stats : Stats)
    → Serves striped sid p seq sent s
    → Serves striped sid p seq sent (record s { stats = stats })
Serves-stats stats v = record {
  table = record { named = v.table.named; used = v.table.used };
  there = v.there;
  passed = v.passed;
  turn = v.turn;
}

pub Awaits-stats :
    {sid : ℕ} {s : SessionTable} (stats : Stats)
    → Awaits sid s
    → Awaits sid (record s { stats = stats })
Awaits-stats stats v = record {
  table = record { named = v.table.named; used = v.table.used };
  absent = v.absent;
  stale = v.stale;
}

pub update_last_active-IsTable :
    (now q : ℕ) (s : SessionTable) → IsTable s → IsTable (update_last_active now q s)
unfolding update_last_active change_object
update_last_active-IsTable now q s v = record {
  named = λ i r e. ground (arith, v.named i r e);
  used = v.used;
}

pub add_session-IsTable :
    (sid now : ℕ) (s : SessionTable)
    → load sid s.sessions ≡ none
    → IsTable s
    → IsTable (add_session sid now s)
unfolding add_session change_object
add_session-IsTable sid now s absent v = record {
  named = λ i r e. elim (Bool-cases (sid == i)) [
    | inl this ↦
        let here : s.allocated ≡ r =
          some-injective s.allocated r
            (ground (arith, load-store_if i sid s.allocated s.sessions, e)) in
        ground (arith, this, here)
    | inr other ↦
        let old : load i s.sessions ≡ some r =
          ground (arith, load-store_if i sid s.allocated s.sessions, e) in
        ground (arith, v.used i r old, v.named i r old)
  ];
  used = λ i r e. elim (Bool-cases (sid == i)) [
    | inl this ↦
        let here : s.allocated ≡ r =
          some-injective s.allocated r
            (ground (arith, load-store_if i sid s.allocated s.sessions, e)) in
        omega (arith, here)
    | inr other ↦
        let old : load i s.sessions ≡ some r =
          ground (arith, load-store_if i sid s.allocated s.sessions, e) in
        omega (arith, v.used i r old)
  ];
}

-- Finding another session, or making it.
pub find_session-Serves :
    (dialed : Bool) (i now : ℕ) {striped : Bool} {sid p seq : ℕ} {sent : List (List ℕ)}
    (s : SessionTable)
    → Serves striped sid p seq sent s
    → Serves striped sid p seq sent (find_session dialed i now s).0
unfolding find_session update_last_active add_session change_object
find_session-Serves dialed i now {striped} {sid} {p} s v = elim (Option-cases (load i s.sessions)) [
  | inr (q, found) ↦
      rw (found, find_session)
        (record {
          table = update_last_active-IsTable now q s v.table;
          there = v.there;
          passed = elim (Bool-cases (q == p)) [
            | inl hit ↦ rw hit v.passed
            | inr miss ↦ rw miss v.passed
          ];
          turn = v.turn;
        })
  | inl free ↦ elim (Bool-cases dialed) [
    | inr down ↦ rw (free, down, find_session) (Serves-stats _ v)
    | inl up ↦
        let old : (s.allocated == p) ≡ false = ground (arith, v.table.used sid p v.there) in
        rw (free, up, find_session)
          (record {
            table = add_session-IsTable i now s free v.table;
            there = elim (Bool-cases (i == sid)) [
              | inl hit ↦ absurd (ground (arith, hit, free, v.there))
              | inr miss ↦ load-store_if sid i s.allocated s.sessions ∙ rw miss v.there
            ];
            passed = rw old v.passed;
            turn = v.turn;
          })
  ]
]
