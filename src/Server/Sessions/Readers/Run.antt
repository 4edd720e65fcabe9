-- ===== src/Server/Sessions/Readers/Run.antt =====
-- internal/server/server.go: each session in the map is read, through any history of the server.
use t2d.Base.{
  ℕ, refl, inl, inr, List, [], ◌∷◌, Bool, Option, none, some, arith, Bool-cases, Result,
  Result-cases,
}
use t2d.Base.Int.{ℤ}
use t2d.Base.Maps.{load}
use t2d.Protocol.Packet.{PacketHeader}
use t2d.Stats.{Stats}
use t2d.Server.Sessions.{
  SessionTable, change_object, put_backend, write_in_order, write_upstream_to_backend,
  write_to_session, handle_upstream_packet, expired_sessions, cleanup_sessions, new_table, Event,
  arrives, replies, read_fails, ticks, step, run,
}
use t2d.Server.Sessions.Readers.{
  IsRead, Alike-IsRead, stats-IsRead, find_session-IsRead, expire_sessions-IsRead,
  read_reply-IsRead,
}
use t2d.Server.Sessions.Readers.Ends.{fail_read-IsRead}

module _ (accepts : List (List ℕ) → List ℕ → Bool) (striped : Bool) (window hold : ℤ) where
  write_to_session-IsRead :
      (seq : ℕ) (payload : List ℕ) (now : ℕ) (found : SessionTable × Option ℕ)
      → IsRead found.0
      → IsRead (write_to_session accepts striped window hold seq payload now found)
  unfolding write_to_session write_upstream_to_backend write_in_order put_backend change_object
  write_to_session-IsRead seq payload now (s, none) v = v
  write_to_session-IsRead seq payload now (s, some p) v = elim (Bool-cases striped) [
    | inl on ↦
        rw (on, write_upstream_to_backend)
          (Alike-IsRead
            (record {
              sessions = refl;
              allocated = refl;
              readers = refl;
              numbers = λ q. ground arith;
            })
            v)
    | inr off ↦
        rw (off, write_upstream_to_backend)
          (Alike-IsRead
            (record {
              sessions = refl;
              allocated = refl;
              readers = refl;
              numbers = λ q. ground arith;
            })
            v)
  ]

  module _ {E : Type 0} (decrypt : List ℕ → Result E (List ℕ)) where
    handle_upstream_packet-IsRead :
        (dialed : Bool) (header : PacketHeader) (body : List ℕ) (now : ℕ) (s : SessionTable)
        → IsRead s
        → IsRead
            (handle_upstream_packet accepts striped window hold decrypt dialed header body now s)
    unfolding handle_upstream_packet
    handle_upstream_packet-IsRead dialed header body now s v = elim (Result-cases (decrypt body)) [
      | inl (x, bad) ↦ rw (bad, handle_upstream_packet) (stats-IsRead _ v)
      | inr (payload, good) ↦
          rw (good, handle_upstream_packet)
            (write_to_session-IsRead header.sequence_id payload now _
              (find_session-IsRead dialed header.session_id now _ (stats-IsRead _ v)))
    ]

    step-IsRead :
        (e : Event) (s : SessionTable)
        → IsRead s
        → IsRead (step accepts striped window hold decrypt s e)
    unfolding step cleanup_sessions
    step-IsRead (arrives dialed header body now) s v =
        handle_upstream_packet-IsRead dialed header body now s v
    step-IsRead (replies reply now p) s v = read_reply-IsRead reply now p s v
    step-IsRead (read_fails counts p) s v = fail_read-IsRead counts p s v
    step-IsRead (ticks timeout now) s v =
        expire_sessions-IsRead (expired_sessions timeout now s.objects s.sessions) s v

    run-IsRead_lem :
        (es : List Event) (s : SessionTable)
        → IsRead s
        → IsRead (run accepts striped window hold decrypt s es)
    unfolding run
    run-IsRead_lem [] s v = v
    run-IsRead_lem (e ∷ es) s v =
        run-IsRead_lem es (step accepts striped window hold decrypt s e) (step-IsRead e s v)

    -- Whatever has happened since the server had no sessions, each session in the map is read.
    pub run-IsRead :
        (stats : Stats) (es : List Event)
        → IsRead (run accepts striped window hold decrypt (new_table stats) es)
    unfolding new_table load
    run-IsRead stats es =
        run-IsRead_lem es (new_table stats) (record {
          table = record { named = λ i p e. cc; used = λ i p e. cc };
          read = λ i p e. cc;
        })
