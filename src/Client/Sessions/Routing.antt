-- ===== src/Client/Sessions/Routing.antt =====
-- internal/client/client.go: the way of a reply from its session to its application.
use t2d.Base.{
  ℕ, ◌+◌, ◌^◌, ◌<◌, ◌≡◌, refl, subst, sym, ◌∙◌, inl, inr, List, [], ◌∷◌, Bool, true, false, not,
  none, some, arith, length, All, ◌==◌, Option-cases, Result, ok, ap,
}
use t2d.Base.Maps.{load, load-store, load-store_if, load-erase}
use t2d.Protocol.Packet.{PacketHeader, packet_type_heartbeat}
use t2d.Session.{UdpSession, update_last_active}
use t2d.Stats.{Stats}
use t2d.Client.Sessions.{
  Sessions, Datagram, Event, arrives, expires, create_session, register_session_on_lane,
  get_or_create_session, remove_session, handle_downstream_packet, step, run, new_sessions,
}
use t2d.Client.Sessions.Invariant.{Inv, update_object-Same, update_last_active-Keeps}
use t2d.Client.Sessions.Steps.{
  get_or_create-found, get_or_create-free, new_sessions-Inv, handle_downstream-found, step-Changes,
  step-Inv, run-Inv, step-counter,
}

new_sessions-counter :
    (chs : List (List ℕ)) (stats : Stats) → (new_sessions chs stats).session_counter ≡ 0
unfolding new_sessions
new_sessions-counter chs stats = refl

pub create_session-other :
    (a now : ℕ) (s : Sessions) (b : ℕ) {p : ℕ}
    → load a s.sessions ≡ none
    → load b s.sessions ≡ some p
    → load b (create_session a now s).0.sessions ≡ some p
unfolding create_session register_session_on_lane
create_session-other a now s b free there = ground (arith, load-store_if b a s.allocated s.sessions)

pub create_session-object :
    (a now : ℕ) (s : Sessions) (p : ℕ)
    → p < s.allocated
    → (create_session a now s).0.objects p ≡ s.objects p
unfolding create_session register_session_on_lane
create_session-object a now s p lt = ground arith

pub create_session_self :
    (a now : ℕ) (s : Sessions)
    → load a (create_session a now s).0.sessions ≡ some (create_session a now s).1
unfolding create_session register_session_on_lane
create_session_self a now s = load-store a s.allocated s.sessions

remove_session-other :
    (key : ℕ) (s : Sessions) (b : ℕ)
    → (key == b) ≡ false
    → load b (remove_session key s).sessions ≡ load b s.sessions
unfolding remove_session
remove_session-other key s b other = ground (arith, load-erase b key s.sessions)

remove_session-objects : (key : ℕ) (s : Sessions) → (remove_session key s).objects ≡ s.objects
unfolding remove_session
remove_session-objects key s = ground arith

-- What an address has: the session at a pointer, with its number.
record Has (addr p sid : ℕ) (s : Sessions) : Type 0 where
  there : load addr s.sessions ≡ some p
  number : (s.objects p).session_id ≡ sid

-- The event removes no session of the address.
abbrev pub spares : ℕ → Event → Bool
spares addr (expires key) = not (key == addr)
spares addr e = true

module _ {E : Type 0} (unmap : ℕ → ℕ) (decrypt : List ℕ → Result E (List ℕ))
    (writes : Datagram → Bool) where
  step-Has :
      (addr p sid : ℕ) (e : Event) (s : Sessions)
      → spares addr e ≡ true
      → Inv s
      → Has addr p sid s
      → Has addr p sid (step unmap decrypt writes s e)
  step-Has addr p sid e s spared v h = elim (step-Changes unmap decrypt writes e s) [
    | inl same ↦ record {
      there = ap (load addr) same.sessions ∙ h.there;
      number = same.number p ∙ h.number;
    }
    | inr (inl (a, now, free, made)) ↦
        let w = v.fwd addr p h.there in
        let back = v.bwd (s.objects p).session_id p w.1 in
        subst (Has addr p sid) (sym made) (record {
          there = create_session-other a now s addr free h.there;
          number =
              ap (λ (o : UdpSession). o.session_id) (create_session-object a now s p back.3)
              ∙ h.number;
        })
    | inr (inr (key, which, less)) ↦
        let other : (key == addr) ≡ false = ground (arith, ap (spares addr) which) in
        subst (Has addr p sid) (sym less) (record {
          there = remove_session-other key s addr other ∙ h.there;
          number =
              ap (λ (f : ℕ → UdpSession). (f p).session_id) (remove_session-objects key s)
              ∙ h.number;
        })
  ]

  run-Has :
      (addr p sid : ℕ) (es : List Event) (s : Sessions)
      → All (λ e. spares addr e ≡ true) es
      → s.session_counter + length es < 2 ^ 32
      → Inv s
      → Has addr p sid s
      → Has addr p sid (run unmap decrypt writes s es)
  unfolding run
  run-Has addr p sid [] s spared room v h = h
  run-Has addr p sid (e ∷ es) s spared room v h =
      run-Has addr p sid es (step unmap decrypt writes s e) spared.1
        (omega (arith, step-counter unmap decrypt writes e s))
        (step-Inv unmap decrypt writes e s (omega arith) v) (step-Has addr p sid e s spared.0 v h)

  -- The session that getOrCreateSession returns is the one that the address has from then on.
  get_or_create-there :
      (addr now : ℕ) (s : Sessions)
      → let (t, p) = get_or_create_session unmap addr now s in load (unmap addr) t.sessions ≡ some p
  get_or_create-there addr now s = elim (Option-cases (load (unmap addr) s.sessions)) [
    | inl free ↦
        subst (λ (c : Sessions × ℕ). load (unmap addr) c.0.sessions ≡ some c.1)
          (sym (get_or_create-free unmap addr now s free)) (create_session_self (unmap addr) now s)
    | inr (p, found) ↦
        subst (λ (c : Sessions × ℕ). load (unmap addr) c.0.sessions ≡ some c.1)
          (sym (get_or_create-found unmap addr now s found))
          (ap (load (unmap addr))
              (update_object-Same (update_last_active now) (update_last_active-Keeps now) p
                s).sessions
            ∙ found)
  ]

  get_or_create-Has :
      (addr now : ℕ) (s : Sessions)
      → let (t, p) = get_or_create_session unmap addr now s in
        Has (unmap addr) p (t.objects p).session_id t
  get_or_create-Has addr now s = record { there = get_or_create-there addr now s; number = refl }

  -- The session's pointer leads back to the address by the number.
  reaches :
      (addr p : ℕ) (header : PacketHeader) (body bytes : List ℕ) (now : ℕ) (s : Sessions)
      → Inv s
      → Has addr p header.session_id s
      → (header.type == packet_type_heartbeat) ≡ false
      → decrypt body ≡ ok bytes
      → (handle_downstream_packet decrypt writes header body now s).1
        ≡ some (record { bytes = bytes; to = addr })
  reaches addr p header body bytes now s v h data_packet good =
      let w = v.fwd addr p h.there in
      let by_number : load header.session_id s.sessions_by_id ≡ some p =
        ap (λ (i : ℕ). load i s.sessions_by_id) (sym h.number) ∙ w.1 in
      ap (λ c. c.1)
        (handle_downstream-found decrypt writes header body now s data_packet good by_number)
      ∙ ap (λ (a : ℕ). some (record { bytes = bytes; to = a })) w.0

  -- A client that has just handled a datagram, after some history: its sessions, and the pointer to
  -- the session of the datagram.
  abbrev pub arrived : List (List ℕ) → Stats → List Event → ℕ → ℕ → Sessions × ℕ
  arrived chs stats before addr now =
      get_or_create_session unmap addr now
        (run unmap decrypt writes (new_sessions chs stats) before)

  -- Take any history of a client and a datagram from an address, and let anything happen after it but
  -- the removal of that address's session, fewer than 2³² events in all. A data packet from the server
  -- with the number of the session that the datagram got, and with a body that decrypts, is written to
  -- that address, decrypted.
  pub run-reply :
      (chs : List (List ℕ)) (stats : Stats) (before after : List Event) (addr now later : ℕ)
      (header : PacketHeader) (body bytes : List ℕ)
      → length before + length after + 1 < 2 ^ 32
      → All (λ e. spares (unmap addr) e ≡ true) after
      → (header.type == packet_type_heartbeat) ≡ false
      → ((arrived chs stats before addr now).0.objects
          (arrived chs stats before addr now).1).session_id
        ≡ header.session_id
      → decrypt body ≡ ok bytes
      → (handle_downstream_packet decrypt writes header body later
          (run unmap decrypt writes (arrived chs stats before addr now).0 after)).1
        ≡ some (record { bytes = bytes; to = unmap addr })
  unfolding step
  run-reply chs stats before after addr now later header body bytes room spared data_packet number
        good =
      let start = new_sessions chs stats in
      let s = run unmap decrypt writes start before in
      let (t, p) = get_or_create_session unmap addr now s in
      let zero_counter : start.session_counter ≡ 0 = new_sessions-counter chs stats in
      let (v, few) =
        run-Inv unmap decrypt writes before start (omega (arith, zero_counter))
          (new_sessions-Inv chs stats) in
      let up = step-counter unmap decrypt writes (arrives addr now) s in
      let w : Inv t =
        step-Inv unmap decrypt writes (arrives addr now) s (omega (arith, few, zero_counter)) v in
      let fits : t.session_counter + length after < 2 ^ 32 = omega (arith, up, few, zero_counter) in
      let h = get_or_create-Has addr now s in
      let kept = run-Has (unmap addr) p (t.objects p).session_id after t spared fits w h in
      reaches (unmap addr) p header body bytes later (run unmap decrypt writes t after)
        (run-Inv unmap decrypt writes after t fits w).0
        (record { there = kept.there; number = kept.number ∙ number }) data_packet good
