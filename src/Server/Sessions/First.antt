-- ===== src/Server/Sessions/First.antt =====
-- internal/server/server.go, handleUpstreamPacket: a session that its first packet makes, among the
-- packets of others.
use t2d.Base.{
  ℕ, suc, ◌+◌, ◌≤◌, ◌≡◌, ◌≢◌, refl, inl, inr, List, [], ◌∷◌, Bool, true, false, Option, none, some,
  arith, length, ◌==◌, Bool-cases, Option-cases, Result, Result-cases,
}
use mathlib.Core.Option.{none-ne-some}
use t2d.Base.Int.{ℤ}
use t2d.Stats.{Stats}
use t2d.Base.Maps.{load, load-store_if, load-erase}
use t2d.Protocol.Packet.{PacketHeader}
use t2d.Protocol.Stream.{Frame}
use t2d.Protocol.Stream.Carries.{Carries, other, own}
use t2d.Server.Traffic.Complete.{handle_all}
use t2d.Server.Reorder.Ready.{last_seq}
use t2d.Server.Sessions.{
  SessionTable, new_table, update_last_active, add_session, find_session, put_backend,
  write_in_order, write_upstream_to_backend, write_to_session, handle_upstream_packet,
}
use t2d.Server.Sessions.Serve.{
  Awaits, Awaits-stats, update_last_active-IsTable, add_session-IsTable,
}
use t2d.Server.Sessions.Turn.{put-IsTable, write_in_order-IsTable}
use t2d.Server.Sessions.Served.{
  IsNamed, find_session-IsNamed, handle_upstream_new, handle, handle_all-Serves,
}

-- What a session's connection has taken.
abbrev pub Passes : ℕ → List (List ℕ) → SessionTable → Type 0
Passes sid ds s = (p : ℕ) × (load sid s.sessions ≡ some p) × ((s.objects p).sent ≡ ds)

find_session-Awaits :
    (dialed : Bool) (i now : ℕ) {sid : ℕ} (s : SessionTable)
    → i ≢ sid
    → Awaits sid s
    → Awaits sid (find_session dialed i now s).0
unfolding find_session update_last_active add_session
find_session-Awaits dialed i now {sid} s apart v = elim (Option-cases (load i s.sessions)) [
  | inr (q, found) ↦
      rw (found, find_session)
        (record {
          table = update_last_active-IsTable now q s v.table;
          absent = v.absent;
          stale = v.stale;
        })
  | inl free ↦ elim (Bool-cases dialed) [
    | inr down ↦ rw (free, down, find_session) (Awaits-stats _ v)
    | inl up ↦
        rw (free, up, find_session)
          (record {
            table = add_session-IsTable i now s free v.table;
            absent = ground (arith, load-store_if sid i s.allocated s.sessions, v.absent);
            stale = v.stale;
          })
  ]
]

module _ (accepts : List (List ℕ) → List ℕ → Bool) (window hold : ℤ) (striped : Bool) where
  write_to_session-Awaits :
      {sid : ℕ} (i n : ℕ) (payload : List ℕ) (now : ℕ) (found : SessionTable × Option ℕ)
      → i ≢ sid
      → IsNamed i found
      → Awaits sid found.0
      → Awaits sid (write_to_session accepts striped window hold n payload now found)
  unfolding write_to_session write_upstream_to_backend write_in_order put_backend
  write_to_session-Awaits i n payload now (s, none) apart named v = v
  write_to_session-Awaits {sid} i n payload now (s, some q) apart named v =
      let no : ((s.objects q).session_id == sid) ≡ false = ground (arith, named, apart) in
      elim (Bool-cases striped) [
        | inr plain ↦
            rw (plain, write_upstream_to_backend)
              (record { table = put-IsTable q _ s v.table; absent = v.absent; stale = v.stale })
        | inl on ↦
            rw (on, write_upstream_to_backend)
              (record {
                table =
                    write_in_order-IsTable accepts window hold striped q n payload now s v.table;
                absent = v.absent;
                stale =
                    rw (no, load-erase sid (s.objects q).session_id s.upstream_reorder_states, no)
                      v.stale;
              })
      ]

  module _ {E : Type 0} (decrypt : List ℕ → Result E (List ℕ)) where
    handle_upstream-Awaits :
        {sid : ℕ} (dialed : Bool) (header : PacketHeader) (body : List ℕ) (now : ℕ)
        (s : SessionTable)
        → header.session_id ≢ sid
        → Awaits sid s
        → Awaits sid
            (handle_upstream_packet accepts striped window hold decrypt dialed header body now s)
    unfolding handle_upstream_packet
    handle_upstream-Awaits dialed header body now s apart v = elim (Result-cases (decrypt body)) [
      | inl (x, bad) ↦ rw (bad, handle_upstream_packet) (Awaits-stats _ v)
      | inr (payload, good) ↦
          rw (good, handle_upstream_packet)
            (write_to_session-Awaits header.session_id header.sequence_id payload now _ apart
              (find_session-IsNamed dialed header.session_id now _ (Awaits-stats _ v).table)
              (find_session-Awaits dialed header.session_id now _ apart (Awaits-stats _ v)))
    ]

    module _ (all_taken : (sent : List (List ℕ)) (p : List ℕ) → accepts sent p ≡ true)
        (dialed : SessionTable → Bool) (up : (s : SessionTable) → dialed s ≡ true)
        (clock : SessionTable → ℕ) where
      pub handle_all-Passes :
          {sid seq : ℕ} (fs : List Frame) {d : List ℕ} {ds : List (List ℕ)} (s : SessionTable)
          → Carries decrypt sid seq fs (d ∷ ds)
          → seq + suc (length ds) ≤ last_seq
          → Awaits sid s
          → Passes sid
              (d ∷ ds)
              (handle_all (handle accepts window hold decrypt striped dialed clock) s fs)
      handle_all-Passes [] s c room v = elim c [ ]
      handle_all-Passes (f ∷ fs) s (other apart c) room v =
          handle_all-Passes fs
            (handle accepts window hold decrypt striped dialed clock s f.header f.payload) c room
            (handle_upstream-Awaits (dialed s) f.header f.payload (clock s) s apart v)
      handle_all-Passes {sid} {seq} (f ∷ fs) {d} {ds} s (own this number good c) room v =
          let first =
            handle_upstream_new accepts window hold decrypt all_taken {striped = striped} seq
              f.header f.payload (clock s) s this number (omega (arith, room)) good v in
          let end =
            handle_all-Serves accepts window hold decrypt all_taken striped dialed clock
              {sent = d ∷ []} fs
              (handle accepts window hold decrypt striped dialed clock s f.header f.payload) c
              (omega (arith, room)) (rw (up s) first) in
          (s.allocated, end.there, end.passed)

pub new_table-Awaits : (sid : ℕ) (stats : Stats) → Awaits sid (new_table stats)
unfolding new_table load
new_table-Awaits sid stats = record {
  table = record {
    named = λ i p e. absurd (none-ne-some p e);
    used = λ i p e. absurd (none-ne-some p e);
  };
  absent = refl;
  stale = refl;
}
