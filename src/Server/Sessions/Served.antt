-- ===== src/Server/Sessions/Served.antt =====
-- internal/server/server.go, handleUpstreamPacket: the packets of many sessions, one after another.
use t2d.Base.{
  ℕ, suc, ◌+◌, ◌≤◌, ◌<◌, ◌≡◌, ◌≢◌, refl, sym, ◌∙◌, inl, inr, List, [], ◌∷◌, ◌++◌, Bool, true,
  Option, none, some, arith, length, Bool-cases, ==_self, Option-cases, Result, ok, Result-cases,
  append-nil, append_assoc,
}
use t2d.Base.Int.{ℤ}
use t2d.Base.Maps.{load}
use t2d.Protocol.Packet.{PacketHeader}
use t2d.Protocol.Stream.{Frame}
use t2d.Protocol.Stream.Carries.{Carries, nothing, other, own}
use t2d.Server.Traffic.Complete.{handle_all}
use t2d.Server.Reorder.Ready.{last_seq}
use t2d.Server.Sessions.{
  SessionTable, change_object, update_last_active, add_session, find_session, write_to_session,
  handle_upstream_packet,
}
use t2d.Server.Sessions.Serve.{
  IsTable, Serves, Awaits, Serves-stats, Awaits-stats, find_session-Serves,
}
use t2d.Server.Sessions.Turn.{
  find_session_own, find_session_new, write_upstream-other, write_upstream_own,
}

-- The session that was found has the number.
abbrev pub IsNamed : ℕ → SessionTable × Option ℕ → Type 0
IsNamed i (s, none) = Unit
IsNamed i (s, some q) = (s.objects q).session_id ≡ i

pub find_session-IsNamed :
    (dialed : Bool) (i now : ℕ) (s : SessionTable)
    → IsTable s
    → IsNamed i (find_session dialed i now s)
unfolding find_session update_last_active add_session change_object
find_session-IsNamed dialed i now s v = elim (Option-cases (load i s.sessions)) [
  | inr (q, found) ↦ rw (found, find_session, ==_self q) (v.named i q found)
  | inl free ↦ elim (Bool-cases dialed) [
    | inl up ↦ rw (free, up, find_session, ==_self s.allocated) refl
    | inr down ↦ rw (free, down, find_session) tt
  ]
]

module _ (accepts : List (List ℕ) → List ℕ → Bool) (window hold : ℤ) where
  write_to_session-other :
      {striped : Bool} {sid p seq : ℕ} {sent : List (List ℕ)} (i n : ℕ) (payload : List ℕ) (now : ℕ)
      (found : SessionTable × Option ℕ)
      → i ≢ sid
      → IsNamed i found
      → Serves striped sid p seq sent found.0
      → Serves striped sid p seq sent
          (write_to_session accepts striped window hold n payload now found)
  unfolding write_to_session
  write_to_session-other i n payload now (s, none) apart named v = v
  write_to_session-other i n payload now (s, some q) apart named v =
      write_upstream-other accepts window hold q n payload now s (λ e. apart (sym named ∙ e)) v

  write_to_session_own :
      (all_taken : (sent : List (List ℕ)) (p : List ℕ) → accepts sent p ≡ true) {striped : Bool}
      {sid p seq : ℕ} {sent : List (List ℕ)} (n : ℕ) (payload : List ℕ) (now : ℕ)
      (found : SessionTable × Option ℕ)
      → n ≡ seq
      → seq < last_seq
      → found.1 ≡ some p
      → Serves striped sid p seq sent found.0
      → Serves striped sid p
          (suc seq)
          (sent ++ (payload ∷ []))
          (write_to_session accepts striped window hold n payload now found)
  unfolding write_to_session
  write_to_session_own all_taken n payload now (s, m) number small e v =
      rw (e, number) (write_upstream_own accepts window hold all_taken payload now s small v)

  module _ {E : Type 0} (decrypt : List ℕ → Result E (List ℕ)) where
    -- handleUpstreamPacket with the outcome of DialUDP and the time that it meets.
    module _ (striped : Bool) (dialed : SessionTable → Bool) (clock : SessionTable → ℕ) where
      abbrev pub handle : SessionTable → PacketHeader → List ℕ → SessionTable
      handle s header body =
          handle_upstream_packet accepts striped window hold decrypt (dialed s) header body
            (clock s) s

    pub handle_upstream-other :
        {striped : Bool} {sid p seq : ℕ} {sent : List (List ℕ)} (dialed : Bool)
        (header : PacketHeader) (body : List ℕ) (now : ℕ) (s : SessionTable)
        → header.session_id ≢ sid
        → Serves striped sid p seq sent s
        → Serves striped sid p seq sent
            (handle_upstream_packet accepts striped window hold decrypt dialed header body now s)
    unfolding handle_upstream_packet
    handle_upstream-other dialed header body now s apart v = elim (Result-cases (decrypt body)) [
      | inl (x, bad) ↦ rw (bad, handle_upstream_packet) (Serves-stats _ v)
      | inr (payload, good) ↦
          rw (good, handle_upstream_packet)
            (write_to_session-other header.session_id header.sequence_id payload now _ apart
              (find_session-IsNamed dialed header.session_id now _ (Serves-stats _ v).table)
              (find_session-Serves dialed header.session_id now _ (Serves-stats _ v)))
    ]

    module _ (all_taken : (sent : List (List ℕ)) (p : List ℕ) → accepts sent p ≡ true) where
      pub handle_upstream_own :
          {striped : Bool} {sid p seq : ℕ} {sent : List (List ℕ)} (dialed : Bool)
          (header : PacketHeader) (body : List ℕ) (now : ℕ) (s : SessionTable) {d : List ℕ}
          → header.session_id ≡ sid
          → header.sequence_id ≡ seq
          → seq < last_seq
          → decrypt body ≡ ok d
          → Serves striped sid p seq sent s
          → Serves striped sid p
              (suc seq)
              (sent ++ (d ∷ []))
              (handle_upstream_packet accepts striped window hold decrypt dialed header body now s)
      unfolding handle_upstream_packet write_to_session
      handle_upstream_own {striped} {sid} {p} {seq} {sent} dialed header body now s {d} this number
            small good v =
          let (found, served) = find_session_own dialed now _ (Serves-stats _ v) in
          rw (good, handle_upstream_packet, this)
            (write_to_session_own all_taken header.sequence_id d now _ number small found served)

      pub handle_upstream_new :
          {striped : Bool} {sid : ℕ} (seq : ℕ) (header : PacketHeader) (body : List ℕ) (now : ℕ)
          (s : SessionTable) {d : List ℕ}
          → header.session_id ≡ sid
          → header.sequence_id ≡ seq
          → seq < last_seq
          → decrypt body ≡ ok d
          → Awaits sid s
          → Serves striped sid s.allocated
              (suc seq)
              (d ∷ [])
              (handle_upstream_packet accepts striped window hold decrypt true header body now s)
      unfolding handle_upstream_packet write_to_session
      handle_upstream_new {striped} {sid} seq header body now s {d} this number small good v =
          let (found, served) = find_session_new now seq {striped = striped} _ (Awaits-stats _ v) in
          rw (good, handle_upstream_packet, this)
            (write_to_session_own all_taken header.sequence_id d now _ number small found served)

      module _ (striped : Bool) (dialed : SessionTable → Bool) (clock : SessionTable → ℕ) where
        pub handle_all-Serves :
            {sid p seq : ℕ} {sent : List (List ℕ)} (fs : List Frame) {ds : List (List ℕ)}
            (s : SessionTable)
            → Carries decrypt sid seq fs ds
            → seq + length ds ≤ last_seq
            → Serves striped sid p seq sent s
            → Serves striped sid p
                (seq + length ds)
                (sent ++ ds)
                (handle_all (handle striped dialed clock) s fs)
        handle_all-Serves {sid} {p} {seq} {sent} [] s nothing room v =
            let zero : seq + 0 ≡ seq = omega arith in rw (zero, append-nil sent) v
        handle_all-Serves (f ∷ fs) s (other apart c) room v =
            handle_all-Serves fs (handle striped dialed clock s f.header f.payload) c room
              (handle_upstream-other (dialed s) f.header f.payload (clock s) s apart v)
        handle_all-Serves {sid} {p} {seq} {sent} (f ∷ fs) s
              (own {d = d} {ds = ds} this number good c) room v =
            let next : suc seq + length ds ≡ seq + suc (length ds) = omega arith in
            rw (sym next, sym (append_assoc sent (d ∷ []) ds))
              (handle_all-Serves fs (handle striped dialed clock s f.header f.payload) c
                (omega (arith, room))
                (handle_upstream_own (dialed s) f.header f.payload (clock s) s this number
                  (omega (arith, room)) good v))
