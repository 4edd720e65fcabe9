-- ===== src/Server/Sessions/Readers.antt =====
-- internal/server/server.go: each session in the map has its handleBackendData, which will take it out.
pub mod Ends
pub mod Run
use mathlib.Core.Option.{some-injective}
use t2d.Base.{
  ℕ, ◌≡◌, refl, ◌∙◌, inl, inr, List, [], ◌∷◌, Bool, true, false, Option, none, some, arith,
  Bool-cases, ◌==◌, Option-cases, Result, Result-cases, if◌then◌else◌,
}
use t2d.Base.Int.{ℤ}
use t2d.Base.Maps.{load, load-erase, load-store_if}
use t2d.Protocol.Packet.{PacketHeader}
use t2d.Stats
use t2d.Stats.{Stats}
use t2d.Server.Sessions.{
  SessionTable, change_object, update_last_active, add_session, find_session, put_backend,
  write_in_order, write_upstream_to_backend, write_to_session, handle_upstream_packet,
  close_session, forget_session, expire_session, end_reader, has_reader, drop_reader, fail_read,
  read_reply, expired_sessions, expire_sessions, cleanup_sessions, new_table, Event, arrives,
  replies, read_fails, ticks, step, run,
}
use t2d.Server.Sessions.Serve.{IsTable, add_session-IsTable}

-- The map holds sessions that were made, under their own numbers, and each is read.
pub record IsRead (s : SessionTable) : Type 0 where
  pub table : IsTable s
  pub read : (sid p : ℕ) → load sid s.sessions ≡ some p → has_reader p s.readers ≡ true

-- Changes to what the sessions have sent, to their clocks and to the counters.
pub record Alike (s t : SessionTable) : Type 0 where
  pub sessions : t.sessions ≡ s.sessions
  pub allocated : t.allocated ≡ s.allocated
  pub readers : t.readers ≡ s.readers
  pub numbers : (p : ℕ) → (t.objects p).session_id ≡ (s.objects p).session_id

pub Alike-IsRead : {s t : SessionTable} → Alike s t → IsRead s → IsRead t
Alike-IsRead k v = record {
  table = record {
    named = λ sid p e. k.numbers p ∙ v.table.named sid p (rw (k.sessions) at e);
    used = λ sid p e. rw (k.allocated) (v.table.used sid p (rw (k.sessions) at e));
  };
  read = λ sid p e. rw (k.readers) (v.read sid p (rw (k.sessions) at e));
}

pub stats-IsRead :
    {s : SessionTable} (stats : Stats) → IsRead s → IsRead (record s { stats = stats })
stats-IsRead stats v =
    Alike-IsRead (record { sessions = refl; allocated = refl; readers = refl; numbers = λ p. refl })
      v

pub update_last_active-Alike : (now p : ℕ) (s : SessionTable) → Alike s (update_last_active now p s)
unfolding update_last_active change_object
update_last_active-Alike now p s = record {
  sessions = refl;
  allocated = refl;
  readers = refl;
  numbers = λ q. ground arith;
}

pub close_session-Alike : (p : ℕ) (s : SessionTable) → Alike s (close_session p s)
unfolding close_session change_object
close_session-Alike p s = record {
  sessions = refl;
  allocated = refl;
  readers = refl;
  numbers = λ q. ground arith;
}

pub close_session-stats : (p : ℕ) (s : SessionTable) → (close_session p s).stats ≡ s.stats
unfolding close_session
close_session-stats p s = refl

pub close_session-closed :
    (p q : ℕ) (s : SessionTable)
    → ((close_session p s).objects q).closed ≡ (if p == q then true else (s.objects q).closed)
unfolding close_session change_object
close_session-closed p q s = ground arith

add_session-IsRead :
    (sid now : ℕ) (s : SessionTable)
    → load sid s.sessions ≡ none
    → IsRead s
    → IsRead (add_session sid now s)
unfolding add_session has_reader
add_session-IsRead sid now s absent v = record {
  table = add_session-IsTable sid now s absent v.table;
  read = λ i p e. elim (Bool-cases (s.allocated == p)) [
    | inl this ↦ rw this refl
    | inr other ↦ rw other (
        v.read i p (elim (Bool-cases (sid == i)) [
          | inl hit ↦
              let here : s.allocated ≡ p =
                some-injective s.allocated p
                  (ground (arith, load-store_if i sid s.allocated s.sessions, e)) in
              absurd (ground (arith, here, other))
          | inr miss ↦ ground (arith, load-store_if i sid s.allocated s.sessions, e)
        ]))
  ];
}

pub load-forget_session :
    (sid i p : ℕ) (s : SessionTable)
    → load i (forget_session sid s).sessions ≡ some p
    → ((sid == i) ≡ false) × (load i s.sessions ≡ some p)
unfolding forget_session
load-forget_session sid i p s e = elim (Bool-cases (sid == i)) [
  | inl gone ↦ absurd (ground (arith, load-erase i sid s.sessions, e))
  | inr kept ↦ (kept, ground (arith, load-erase i sid s.sessions, e))
]

forget_session-IsRead : (sid : ℕ) (s : SessionTable) → IsRead s → IsRead (forget_session sid s)
unfolding forget_session
forget_session-IsRead sid s v = record {
  table = record {
    named = λ i p e. v.table.named i p (load-forget_session sid i p s e).1;
    used = λ i p e. v.table.used i p (load-forget_session sid i p s e).1;
  };
  read = λ i p e. v.read i p (load-forget_session sid i p s e).1;
}

pub find_session-IsRead :
    (dialed : Bool) (sid now : ℕ) (s : SessionTable)
    → IsRead s
    → IsRead (find_session dialed sid now s).0
unfolding find_session
find_session-IsRead dialed sid now s v = elim (Option-cases (load sid s.sessions)) [
  | inr (p, there) ↦ rw (there, find_session) (Alike-IsRead (update_last_active-Alike now p s) v)
  | inl absent ↦ elim (Bool-cases dialed) [
    | inl up ↦ rw (absent, up, find_session) (add_session-IsRead sid now s absent v)
    | inr down ↦ rw (absent, down, find_session) (stats-IsRead (Stats.add_error s.stats) v)
  ]
]

expire_session-IsRead : (sid : ℕ) (s : SessionTable) → IsRead s → IsRead (expire_session sid s)
unfolding expire_session
expire_session-IsRead sid s v = elim (Option-cases (load sid s.sessions)) [
  | inl absent ↦ rw (absent, expire_session) v
  | inr (p, there) ↦
      rw (there, expire_session)
        (forget_session-IsRead sid (close_session p s) (Alike-IsRead (close_session-Alike p s) v))
]

pub expire_sessions-IsRead :
    (sids : List ℕ) (s : SessionTable) → IsRead s → IsRead (expire_sessions sids s)
unfolding expire_sessions
expire_sessions-IsRead [] s v = v
expire_sessions-IsRead (sid ∷ sids) s v =
    expire_sessions-IsRead sids (expire_session sid s) (expire_session-IsRead sid s v)

pub read_reply-IsRead :
    (reply : List ℕ) (now p : ℕ) (s : SessionTable) → IsRead s → IsRead (read_reply reply now p s)
unfolding read_reply
read_reply-IsRead reply now p s v = elim (Bool-cases (has_reader p s.readers)) [
  | inl reads ↦
      rw (reads, read_reply) (Alike-IsRead (update_last_active-Alike now p _) (stats-IsRead _ v))
  | inr ended ↦ rw (ended, read_reply) v
]
