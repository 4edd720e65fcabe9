-- ===== src/Server/Sessions/Count.antt =====
-- internal/server/server.go: the map of backend sessions and the counter of active sessions.
pub mod Run
use t2d.Base.{
  ℕ, suc, ◌+◌, ◌%◌, ◌^◌, ◌≤◌, ◌<◌, ◌≡◌, refl, ap, sym, ◌∙◌, subst, inl, inr, List, [], ◌∷◌, Bool,
  true, false, Option, none, some, arith, length, Bool-cases, Option-cases, if◌then◌else◌,
}
use t2d.Base.Int.{ℤ}
use t2d.Base.Maps.{Map, load, IsMap, store-IsMap, erase-IsMap, length-store_new, length-erase}
use t2d.Protocol.Packet.{PacketHeader}
use t2d.Server.Backend.{Backend}
use t2d.Server.Reorder.Counts.{write_backend_packet_active, reorder_active}
use t2d.Server.Sessions.{
  SessionTable, update_last_active, add_session, find_session, reorder_state, put_backend,
  write_in_order, write_upstream_to_backend, write_to_session, handle_upstream_packet,
  close_session, forget_session, expire_session, end_reader, has_reader, drop_reader, fail_read,
  read_reply, expired_sessions, expire_sessions, cleanup_sessions, new_table, Event, arrives,
  replies, read_fails, ticks, step, run,
}
use t2d.Stats
use t2d.Stats.{Stats}

-- No number stands twice in the map, and so many sessions are counted.
pub record Counted (s : SessionTable) : Type 0 where
  pub once : IsMap s.sessions
  pub shown : s.stats.active_sessions ≡ length s.sessions

-- The map and the counter stay as they are.
pub record Same (s t : SessionTable) : Type 0 where
  pub sessions : t.sessions ≡ s.sessions
  pub active : t.stats.active_sessions ≡ s.stats.active_sessions

Same-Counted : {s t : SessionTable} → Same s t → Counted s → Counted t
Same-Counted e c = record {
  once = subst IsMap (sym e.sessions) c.once;
  shown = omega (arith, e.active, ap length e.sessions, c.shown);
}

-- So many sessions are counted, and they are at most this many.
pub record Within (n : ℕ) (s : SessionTable) : Type 0 where
  pub counted : Counted s
  pub few : length s.sessions ≤ n

pub Same-Within : {n : ℕ} {s t : SessionTable} → Same s t → Within n s → Within n t
Same-Within e w = record {
  counted = Same-Counted e w.counted;
  few = omega (arith, ap length e.sessions, w.few);
}

pub Within-suc : {n : ℕ} {s : SessionTable} → Within n s → Within (suc n) s
Within-suc w = record { counted = w.counted; few = omega (arith, w.few) }

add_session-Within :
    (n sid now : ℕ) (s : SessionTable)
    → load sid s.sessions ≡ none
    → suc n < 2 ^ 32
    → Within n s
    → Within (suc n) (add_session sid now s)
unfolding add_session Stats.add_active_session
add_session-Within n sid now s absent room w =
    let more = length-store_new sid s.allocated s.sessions absent in
    record {
      counted = record {
        once = store-IsMap sid s.allocated s.sessions w.counted.once;
        shown = omega (arith, more, w.counted.shown, w.few);
      };
      few = omega (arith, more, w.few);
    }

forget_session-Within :
    (n sid : ℕ) (s : SessionTable) {p : ℕ}
    → load sid s.sessions ≡ some p
    → n < 2 ^ 32
    → Within n s
    → Within n (forget_session sid s)
unfolding forget_session Stats.remove_active_session
forget_session-Within n sid s there small w =
    let fewer = length-erase sid s.sessions w.counted.once there in
    record {
      counted = record {
        once = erase-IsMap sid s.sessions w.counted.once;
        shown = omega (arith, fewer, w.counted.shown, w.few);
      };
      few = omega (arith, fewer, w.few);
    }

pub find_session-Within :
    (n : ℕ) (dialed : Bool) (sid now : ℕ) (s : SessionTable)
    → suc n < 2 ^ 32
    → Within n s
    → Within (suc n) (find_session dialed sid now s).0
unfolding find_session update_last_active Stats.add_error
find_session-Within n dialed sid now s room w = elim (Option-cases (load sid s.sessions)) [
  | inl absent ↦ elim (Bool-cases dialed) [
    | inl up ↦ rw (absent, up, find_session) (add_session-Within n sid now s absent room w)
    | inr down ↦
        rw (absent, down, find_session)
          (Within-suc (Same-Within (record { sessions = refl; active = refl }) w))
  ]
  | inr (p, there) ↦
      rw (there, find_session)
        (Within-suc (Same-Within (record { sessions = refl; active = refl }) w))
]

expire_session-Within :
    (n sid : ℕ) (s : SessionTable) → n < 2 ^ 32 → Within n s → Within n (expire_session sid s)
unfolding expire_session close_session
expire_session-Within n sid s small w = elim (Option-cases (load sid s.sessions)) [
  | inl absent ↦ rw (absent, expire_session) w
  | inr (p, there) ↦
      rw (there, expire_session)
        (forget_session-Within n sid (close_session p s) there small
          (Same-Within (record { sessions = refl; active = refl }) w))
]

pub expire_sessions-Within :
    (n : ℕ) (sids : List ℕ) (s : SessionTable)
    → n < 2 ^ 32
    → Within n s
    → Within n (expire_sessions sids s)
unfolding expire_sessions
expire_sessions-Within n [] s small w = w
expire_sessions-Within n (sid ∷ sids) s small w =
    expire_sessions-Within n sids (expire_session sid s) small
      (expire_session-Within n sid s small w)

end_reader-Within :
    (n p : ℕ) (s : SessionTable) → n < 2 ^ 32 → Within n s → Within n (end_reader p s)
unfolding end_reader close_session
end_reader-Within n p s small w =
    let kept : Within n (close_session p s) =
      Same-Within (record { sessions = refl; active = refl }) w in
    elim (Option-cases (load (s.objects p).session_id s.sessions)) [
      | inl absent ↦ rw (absent, end_reader) kept
      | inr (q, there) ↦
          rw (there, end_reader)
            (forget_session-Within n (s.objects p).session_id (close_session p s) there small kept)
    ]

counts_active :
    (counts : Bool) (stats : Stats)
    → (if counts then Stats.add_error stats else stats).active_sessions ≡ stats.active_sessions
unfolding Stats.add_error
counts_active true stats = refl
counts_active false stats = refl

pub fail_read-Within :
    (n : ℕ) (counts : Bool) (p : ℕ) (s : SessionTable)
    → n < 2 ^ 32
    → Within n s
    → Within n (fail_read counts p s)
unfolding fail_read Stats.add_error
fail_read-Within n counts p s small w = elim (Bool-cases (has_reader p s.readers)) [
  | inl reads ↦
      let left : SessionTable = record s {
        readers = drop_reader p s.readers;
        stats = if counts then Stats.add_error s.stats else s.stats;
      } in
      rw (reads, fail_read)
        (end_reader-Within n p left small
          (Same-Within (record { sessions = refl; active = counts_active counts s.stats }) w))
  | inr ended ↦ rw (ended, fail_read) w
]

pub read_reply-Within :
    (n : ℕ) (reply : List ℕ) (now p : ℕ) (s : SessionTable)
    → Within n s
    → Within n (read_reply reply now p s)
unfolding read_reply update_last_active Stats.add_packets_received Stats.add_bytes_received
read_reply-Within n reply now p s w = elim (Bool-cases (has_reader p s.readers)) [
  | inl reads ↦ rw (reads, read_reply) (Same-Within (record { sessions = refl; active = refl }) w)
  | inr ended ↦ rw (ended, read_reply) w
]
