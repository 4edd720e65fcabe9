-- ===== src/Server/Sessions/Order.antt =====
-- internal/server/server.go, handleUpstreamPacket with striping: the order of the packets that a backend
-- connection gets.
use mathlib.Core.Option.{none-ne-some}
use t2d.Base.{
  ℕ, ◌<◌, ◌≡◌, refl, inl, inr, List, [], ◌∷◌, map, Bool, true, Option, none, some, arith, All,
  Bool-cases, ==_self, Option-cases, Result, ok, Result-cases,
}
use t2d.Base.Int.{ℤ}
use t2d.Base.Maps.{load, load-store}
use t2d.Protocol.Packet.{PacketHeader}
use t2d.Server.Reorder.Ready.{Ascends, last_seq}
use t2d.Stats.{Stats}
use t2d.Server.Sessions.{
  SessionTable, change_object, add_session, find_session, write_upstream_to_backend,
  write_to_session, handle_upstream_packet, close_session, expire_session, end_reader, has_reader,
  fail_read, read_reply, expired_sessions, expire_sessions, cleanup_sessions, new_table, Event,
  arrives, replies, read_fails, ticks, step, run,
}
use t2d.Server.Sessions.Invariant.{
  IsOrdered, Keeps-IsOrdered, update_last_active-Keeps, close_session-Keeps,
  forget_session-IsOrdered, add_session-IsOrdered, write_in_order-IsOrdered,
}

module _ (tag : List ℕ → ℕ) where
  -- What is found is the session that the map has under its own number.
  abbrev IsFound : SessionTable × Option ℕ → Type 0
  IsFound (s, none) = IsOrdered tag s
  IsFound (s, some p) = IsOrdered tag s × (load (s.objects p).session_id s.sessions ≡ some p)

  add_session-load :
      (sid now : ℕ) (s : SessionTable)
      → let t = add_session sid now s in
        load (t.objects s.allocated).session_id t.sessions ≡ some s.allocated
  unfolding add_session change_object
  add_session-load sid now s = rw (==_self s.allocated) (load-store sid s.allocated s.sessions)

  find_session-IsFound :
      (dialed : Bool) (sid now : ℕ) (s : SessionTable)
      → IsOrdered tag s
      → IsFound (find_session dialed sid now s)
  unfolding find_session
  find_session-IsFound dialed sid now s v = elim (Option-cases (load sid s.sessions)) [
    | inl absent ↦ elim (Bool-cases dialed) [
      | inl up ↦
          rw (absent, up, find_session)
            (add_session-IsOrdered tag sid now s absent v, add_session-load sid now s)
      | inr down ↦
          rw (absent, down, find_session)
            (Keeps-IsOrdered tag
              (record {
                sessions = refl;
                allocated = refl;
                states = refl;
                numbers = λ p. refl;
                sent = λ p. refl;
              })
              v)
    ]
    | inr (p, there) ↦
        let k = update_last_active-Keeps tag now p s in
        rw (there, find_session)
          (Keeps-IsOrdered tag k v, rw (k.numbers p, v.named sid p there) there)
  ]

  new_table-IsOrdered : (stats : Stats) → IsOrdered tag (new_table stats)
  unfolding new_table load
  new_table-IsOrdered stats = record {
    named = λ i q e. absurd (none-ne-some q e);
    used = λ i q e. absurd (none-ne-some q e);
    fits = λ i q e. absurd (none-ne-some q e);
    stale = λ i e. refl;
    ordered = λ q. (0, omega arith);
  }

  stats-IsOrdered :
      (stats : Stats) {s : SessionTable}
      → IsOrdered tag s
      → IsOrdered tag (record s { stats = stats })
  stats-IsOrdered stats v =
      Keeps-IsOrdered tag
        (record {
          sessions = refl;
          allocated = refl;
          states = refl;
          numbers = λ p. refl;
          sent = λ p. refl;
        })
        v

  expire_session-IsOrdered :
      (sid : ℕ) (s : SessionTable) → IsOrdered tag s → IsOrdered tag (expire_session sid s)
  unfolding expire_session
  expire_session-IsOrdered sid s v = elim (Option-cases (load sid s.sessions)) [
    | inl absent ↦ rw (absent, expire_session) v
    | inr (p, there) ↦
        rw (there, expire_session)
          (forget_session-IsOrdered tag sid (close_session p s)
            (Keeps-IsOrdered tag (close_session-Keeps tag p s) v))
  ]

  expire_sessions-IsOrdered :
      (sids : List ℕ) (s : SessionTable) → IsOrdered tag s → IsOrdered tag (expire_sessions sids s)
  unfolding expire_sessions
  expire_sessions-IsOrdered [] s v = v
  expire_sessions-IsOrdered (sid ∷ sids) s v =
      expire_sessions-IsOrdered sids (expire_session sid s) (expire_session-IsOrdered sid s v)

  end_reader-IsOrdered :
      (p : ℕ) (s : SessionTable) → IsOrdered tag s → IsOrdered tag (end_reader p s)
  unfolding end_reader
  end_reader-IsOrdered p s v =
      let w = Keeps-IsOrdered tag (close_session-Keeps tag p s) v in
      elim (Option-cases (load (s.objects p).session_id s.sessions)) [
        | inl absent ↦ rw (absent, end_reader) w
        | inr (q, there) ↦
            rw (there, end_reader)
              (forget_session-IsOrdered tag (s.objects p).session_id (close_session p s) w)
      ]

  fail_read-IsOrdered :
      (counts : Bool) (p : ℕ) (s : SessionTable)
      → IsOrdered tag s
      → IsOrdered tag (fail_read counts p s)
  unfolding fail_read
  fail_read-IsOrdered counts p s v = elim (Bool-cases (has_reader p s.readers)) [
    | inl reads ↦
        rw (reads, fail_read)
          (end_reader-IsOrdered p _ (
            Keeps-IsOrdered tag
              (record {
                sessions = refl;
                allocated = refl;
                states = refl;
                numbers = λ q. refl;
                sent = λ q. refl;
              })
              v))
    | inr ended ↦ rw (ended, fail_read) v
  ]

  read_reply-IsOrdered :
      (reply : List ℕ) (now p : ℕ) (s : SessionTable)
      → IsOrdered tag s
      → IsOrdered tag (read_reply reply now p s)
  unfolding read_reply
  read_reply-IsOrdered reply now p s v = elim (Bool-cases (has_reader p s.readers)) [
    | inl reads ↦
        rw (reads, read_reply)
          (Keeps-IsOrdered tag (update_last_active-Keeps tag now p _) (stats-IsOrdered _ v))
    | inr ended ↦ rw (ended, read_reply) v
  ]

  module _ (accepts : List (List ℕ) → List ℕ → Bool) (window hold : ℤ) where
    write_to_session-IsOrdered :
        (seq : ℕ) (payload : List ℕ) (now : ℕ) (found : SessionTable × Option ℕ)
        → tag payload ≡ seq
        → seq < last_seq
        → IsFound found
        → IsOrdered tag (write_to_session accepts true window hold seq payload now found)
    unfolding write_to_session write_upstream_to_backend
    write_to_session-IsOrdered seq payload now (s, none) t small v = v
    write_to_session-IsOrdered seq payload now (s, some p) t small v =
        write_in_order-IsOrdered tag accepts window hold true p seq payload now s v.1 t small v.0

    module _ {E : Type 0} (decrypt : List ℕ → Result E (List ℕ)) where
      -- A packet that decrypts has its number in its payload.
      abbrev pub IsTagged : Event → Type 0
      IsTagged (arrives dialed header body now) =
          (payload : List ℕ)
          → decrypt body ≡ ok payload
          → (tag payload ≡ header.sequence_id) × (header.sequence_id < last_seq)
      IsTagged (replies reply now p) = Unit
      IsTagged (read_fails counts p) = Unit
      IsTagged (ticks timeout now) = Unit

      handle_upstream_packet-IsOrdered :
          (dialed : Bool) (header : PacketHeader) (body : List ℕ) (now : ℕ) (s : SessionTable)
          → IsTagged (arrives dialed header body now)
          → IsOrdered tag s
          → IsOrdered tag
              (handle_upstream_packet accepts true window hold decrypt dialed header body now s)
      unfolding handle_upstream_packet
      handle_upstream_packet-IsOrdered dialed header body now s h v =
          elim (Result-cases (decrypt body)) [
            | inl (x, bad) ↦ rw (bad, handle_upstream_packet) (stats-IsOrdered _ v)
            | inr (payload, good) ↦
                rw (good, handle_upstream_packet)
                  (write_to_session-IsOrdered header.sequence_id payload now _ (h payload good).0
                    (h payload good).1
                    (find_session-IsFound dialed header.session_id now _ (stats-IsOrdered _ v)))
          ]

      step-IsOrdered :
          (e : Event) (s : SessionTable)
          → IsTagged e
          → IsOrdered tag s
          → IsOrdered tag (step accepts true window hold decrypt s e)
      unfolding step cleanup_sessions
      step-IsOrdered (arrives dialed header body now) s h v =
          handle_upstream_packet-IsOrdered dialed header body now s h v
      step-IsOrdered (replies reply now p) s h v = read_reply-IsOrdered reply now p s v
      step-IsOrdered (read_fails counts p) s h v = fail_read-IsOrdered counts p s v
      step-IsOrdered (ticks timeout now) s h v =
          expire_sessions-IsOrdered (expired_sessions timeout now s.objects s.sessions) s v

      run-IsOrdered :
          (es : List Event) (s : SessionTable)
          → All IsTagged es
          → IsOrdered tag s
          → IsOrdered tag (run accepts true window hold decrypt s es)
      unfolding run
      run-IsOrdered [] s h v = v
      run-IsOrdered (e ∷ es) s h v =
          run-IsOrdered es (step accepts true window hold decrypt s e) h.1
            (step-IsOrdered e s h.0 v)

      -- From a server without sessions on, with striping, for any window and hold time and any outcome
      -- of each write, through packets of any sessions in any order, replies, failing reads and ticks of
      -- the clean-up, handled one at a time, where each packet that decrypts has in its payload the
      -- number it comes under, none as far as 2³² - 1: the numbers of the packets that each backend
      -- connection ever made has got ascend strictly.
      pub run-new_table-Ascends :
          (stats : Stats) (es : List Event)
          → All IsTagged es
          → (p : ℕ)
          → (hi : ℕ) × Ascends 0
              (map tag ((run accepts true window hold decrypt (new_table stats) es).objects p).sent)
              hi
      run-new_table-Ascends stats es h p =
          (run-IsOrdered es (new_table stats) h (new_table-IsOrdered stats)).ordered p
