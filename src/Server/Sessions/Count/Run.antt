-- ===== src/Server/Sessions/Count/Run.antt =====
-- internal/server/server.go: the counter of active sessions through any history of the server.
use t2d.Base.{
  ℕ, suc, ◌+◌, ◌^◌, ◌<◌, refl, inl, inr, List, [], ◌∷◌, Bool, Option, none, some, arith, length,
  Bool-cases, Result, Result-cases,
}
use t2d.Base.Int.{ℤ}
use t2d.Base.Maps.{load}
use t2d.Protocol.Packet.{PacketHeader}
use t2d.Server.Backend.{Backend}
use t2d.Server.Reorder.Counts.{write_backend_packet_active, reorder_active}
use t2d.Server.Sessions.{
  SessionTable, reorder_state, put_backend, write_in_order, write_upstream_to_backend,
  write_to_session, handle_upstream_packet, expired_sessions, cleanup_sessions, new_table, Event,
  arrives, replies, read_fails, ticks, step, run,
}
use t2d.Server.Sessions.Count.{
  Counted, Same, Same-Within, Within, Within-suc, find_session-Within, expire_sessions-Within,
  fail_read-Within, read_reply-Within,
}
use t2d.Stats
use t2d.Stats.{Stats}

module _ (accepts : List (List ℕ) → List ℕ → Bool) (striped : Bool) (window hold : ℤ) where
  write_upstream_to_backend-Same :
      (p seq : ℕ) (payload : List ℕ) (now : ℕ) (s : SessionTable)
      → Same s (write_upstream_to_backend accepts striped window hold p seq payload now s)
  unfolding write_upstream_to_backend write_in_order put_backend
  write_upstream_to_backend-Same p seq payload now s =
      let backend : Backend = record { sent = (s.objects p).sent; stats = s.stats } in
      elim (Bool-cases striped) [
        | inl on ↦
            rw (on, write_upstream_to_backend)
              (record {
                sessions = refl;
                active =
                    reorder_active accepts window hold
                      (reorder_state (load (s.objects p).session_id s.upstream_reorder_states))
                      backend seq payload now;
              })
        | inr off ↦
            rw (off, write_upstream_to_backend)
              (record {
                sessions = refl;
                active = write_backend_packet_active accepts backend payload;
              })
      ]

  write_to_session-Within :
      (n seq : ℕ) (payload : List ℕ) (now : ℕ) (found : SessionTable × Option ℕ)
      → Within n found.0
      → Within n (write_to_session accepts striped window hold seq payload now found)
  unfolding write_to_session
  write_to_session-Within n seq payload now (s, none) w = w
  write_to_session-Within n seq payload now (s, some p) w =
      Same-Within (write_upstream_to_backend-Same p seq payload now s) w

  module _ {E : Type 0} (decrypt : List ℕ → Result E (List ℕ)) where
    handle_upstream_packet-Within :
        (n : ℕ) (dialed : Bool) (header : PacketHeader) (body : List ℕ) (now : ℕ) (s : SessionTable)
        → suc n < 2 ^ 32
        → Within n s
        → Within
            (suc n)
            (handle_upstream_packet accepts striped window hold decrypt dialed header body now s)
    unfolding handle_upstream_packet Stats.add_packets_received Stats.add_bytes_received
        Stats.add_error
    handle_upstream_packet-Within n dialed header body now s room w =
        elim (Result-cases (decrypt body)) [
          | inl (x, bad) ↦
              rw (bad, handle_upstream_packet)
                (Within-suc (Same-Within (record { sessions = refl; active = refl }) w))
          | inr (payload, good) ↦
              rw (good, handle_upstream_packet)
                (write_to_session-Within (suc n) header.sequence_id payload now _ (
                  find_session-Within n dialed header.session_id now _ room
                    (Same-Within (record { sessions = refl; active = refl }) w)))
        ]

    step-Within :
        (n : ℕ) (e : Event) (s : SessionTable)
        → suc n < 2 ^ 32
        → Within n s
        → Within (suc n) (step accepts striped window hold decrypt s e)
    unfolding step cleanup_sessions
    step-Within n (arrives dialed header body now) s room w =
        handle_upstream_packet-Within n dialed header body now s room w
    step-Within n (replies reply now p) s room w = Within-suc (read_reply-Within n reply now p s w)
    step-Within n (read_fails counts p) s room w =
        Within-suc (fail_read-Within n counts p s (omega (arith, room)) w)
    step-Within n (ticks timeout now) s room w = Within-suc (
        expire_sessions-Within n (expired_sessions timeout now s.objects s.sessions) s
          (omega (arith, room)) w)

    pub run-Within :
        (n : ℕ) (es : List Event) (s : SessionTable)
        → n + length es < 2 ^ 32
        → Within n s
        → Within (n + length es) (run accepts striped window hold decrypt s es)
    unfolding run
    run-Within n [] s room w = record { counted = w.counted; few = omega (arith, w.few) }
    run-Within n (e ∷ es) s room w =
        let later =
          run-Within (suc n) es (step accepts striped window hold decrypt s e) (omega (arith, room))
            (step-Within n e s (omega (arith, room)) w) in
        record { counted = later.counted; few = omega (arith, later.few) }

    pub new_table-Within : (now : ℕ) → Within 0 (new_table (Stats.new now))
    unfolding new_table Stats.new
    new_table-Within now = record {
      counted = record { once = tt; shown = refl };
      few = omega arith;
    }

    -- From a server with no sessions and fresh counters on, through fewer than 2³² packets, replies,
    -- failing reads and ticks of the clean-up in any order, handled one at a time, with striping or
    -- without: no number stands twice in the map of sessions, and the counter of active sessions is
    -- the number of its entries.
    pub run-new_table-Counted :
        (now : ℕ) (es : List Event)
        → length es < 2 ^ 32
        → Counted (run accepts striped window hold decrypt (new_table (Stats.new now)) es)
    run-new_table-Counted now es few =
        (run-Within 0 es (new_table (Stats.new now)) (omega (arith, few))
          (new_table-Within now)).counted
