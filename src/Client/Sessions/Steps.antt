-- ===== src/Client/Sessions/Steps.antt =====
-- internal/client/client.go: what each event does to the maps of sessions.
use t2d.Base.{
  ℕ, ◌+◌, ◌^◌, ◌≤◌, ◌<◌, ◌≡◌, refl, subst, ◌⊎◌, sym, inl, inr, List, [], ◌∷◌, Bool, true, false,
  none, some, arith, length, ◌==◌, Bool-cases, Option-cases, Result, ok, Result-cases, ap,
}
use t2d.Base.Maps.{load}
use t2d.Protocol.Packet.{PacketHeader, packet_type_heartbeat}
use t2d.Session.{update_last_active}
use t2d.Stats
use t2d.Stats.{Stats}
use t2d.Client.Sessions.{
  Sessions, Datagram, Event, arrives, numbers, expires, replies, update_object, create_session,
  register_session_on_lane, get_or_create_session, remove_session, deliver,
  handle_downstream_packet, step, run, new_sessions,
}
use t2d.Client.Sessions.Invariant.{
  Inv, Same, Same-Inv, update_object-Same, update_last_active-Keeps, next_sequence_id-Keeps,
}
use t2d.Client.Sessions.Create.{create_session-Inv}
use t2d.Client.Sessions.Remove.{remove_session-Inv}

pub new_sessions-Inv : (chs : List (List ℕ)) (stats : Stats) → Inv (new_sessions chs stats)
unfolding new_sessions load
new_sessions-Inv chs stats = record { fwd = λ a p h. cc; bwd = λ i p h. cc }

pub get_or_create-found :
    (unmap : ℕ → ℕ) (addr now : ℕ) (s : Sessions) {p : ℕ}
    → load (unmap addr) s.sessions ≡ some p
    → get_or_create_session unmap addr now s ≡ (update_object (update_last_active now) p s, p)
unfolding get_or_create_session
get_or_create-found unmap addr now s h = rw (h, get_or_create_session) refl

pub get_or_create-free :
    (unmap : ℕ → ℕ) (addr now : ℕ) (s : Sessions)
    → load (unmap addr) s.sessions ≡ none
    → get_or_create_session unmap addr now s ≡ create_session (unmap addr) now s
unfolding get_or_create_session
get_or_create-free unmap addr now s h = rw (h, get_or_create_session) refl

module _ {E : Type 0} (decrypt : List ℕ → Result E (List ℕ)) (writes : Datagram → Bool) where
  Same-refl : (s : Sessions) → Same s s
  Same-refl s = record {
    sessions = refl;
    sessions_by_id = refl;
    counter = refl;
    allocated = refl;
    active = refl;
    number = λ q. refl;
    address = λ q. refl;
  }

  Same-error : (s : Sessions) → Same s (record s { stats = Stats.add_error s.stats })
  unfolding Stats.add_error
  Same-error s = record {
    sessions = refl;
    sessions_by_id = refl;
    counter = refl;
    allocated = refl;
    active = refl;
    number = λ q. refl;
    address = λ q. refl;
  }

  deliver-Same :
      (sent : Bool) (p : ℕ) (bytes : List ℕ) (now : ℕ) (s : Sessions)
      → Same s (deliver decrypt sent p bytes now s)
  unfolding deliver Stats.add_error Stats.add_packets_sent Stats.add_bytes_sent
  deliver-Same true p bytes now s =
      let u = update_object-Same (update_last_active now) (update_last_active-Keeps now) p s in
      record {
        sessions = refl;
        sessions_by_id = refl;
        counter = refl;
        allocated = refl;
        active = refl;
        number = u.number;
        address = u.address;
      }
  deliver-Same false p bytes now s = record {
    sessions = refl;
    sessions_by_id = refl;
    counter = refl;
    allocated = refl;
    active = refl;
    number = λ q. refl;
    address = λ q. refl;
  }

  -- A data packet for a session that is there, with a body that decrypts.
  pub handle_downstream-found :
      (header : PacketHeader) (body : List ℕ) (now : ℕ) (s : Sessions) {p : ℕ} {bytes : List ℕ}
      → (header.type == packet_type_heartbeat) ≡ false
      → decrypt body ≡ ok bytes
      → load header.session_id s.sessions_by_id ≡ some p
      → handle_downstream_packet decrypt writes header body now s ≡ (
          let d : Datagram = record { bytes = bytes; to = (s.objects p).remote_addr_port } in
          (deliver decrypt (writes d) p bytes now s, some d))
  unfolding handle_downstream_packet
  handle_downstream-found header body now s t d l = rw (t, d, l, handle_downstream_packet) refl

  pub handle_downstream-Same :
      (header : PacketHeader) (body : List ℕ) (now : ℕ) (s : Sessions)
      → Same s (handle_downstream_packet decrypt writes header body now s).0
  unfolding handle_downstream_packet
  handle_downstream-Same header body now s =
      elim (Bool-cases (header.type == packet_type_heartbeat)) [
        | inl beat ↦ rw (beat, handle_downstream_packet) (Same-refl s)
        | inr other ↦ elim (Result-cases (decrypt body)) [
          | inl (e, bad) ↦ rw (other, bad, handle_downstream_packet) (Same-error s)
          | inr (bytes, good) ↦ elim (Option-cases (load header.session_id s.sessions_by_id)) [
            | inl absent ↦ rw (other, good, absent, handle_downstream_packet) (Same-refl s)
            | inr (p, there) ↦
                rw (handle_downstream-found header body now s other good there)
                  (deliver-Same _ p bytes now s)
          ]
        ]
      ]

create_session-counter :
    (addr now : ℕ) (s : Sessions)
    → (create_session addr now s).0.session_counter ≤ s.session_counter + 1
unfolding create_session register_session_on_lane
create_session-counter addr now s = omega arith

remove_session-counter :
    (key : ℕ) (s : Sessions) → (remove_session key s).session_counter ≡ s.session_counter
unfolding remove_session
remove_session-counter key s = ground arith

module _ {E : Type 0} (unmap : ℕ → ℕ) (decrypt : List ℕ → Result E (List ℕ))
    (writes : Datagram → Bool) where
  -- Either an event leaves the sessions as they are, or one is added or removed.
  abbrev pub Changes : Event → Sessions → Type 0
  Changes e s =
      Same s (step unmap decrypt writes s e)
      ⊎ (((addr : ℕ) × (now : ℕ) × (load addr s.sessions ≡ none)
            × (step unmap decrypt writes s e ≡ (create_session addr now s).0))
          ⊎ ((key : ℕ) × (e ≡ expires key)
              × (step unmap decrypt writes s e ≡ remove_session key s)))

  pub step-Changes : (e : Event) (s : Sessions) → Changes e s
  unfolding step
  step-Changes (arrives addr now) s = elim (Option-cases (load (unmap addr) s.sessions)) [
    | inl free ↦
        inr (inl (unmap addr, now, free, ap (λ c. c.0) (get_or_create-free unmap addr now s free)))
    | inr (p, found) ↦ inl (
        subst (λ (c : Sessions × ℕ). Same s c.0) (sym (get_or_create-found unmap addr now s found))
          (update_object-Same (update_last_active now) (update_last_active-Keeps now) p s))
  ]
  step-Changes (numbers p) s = inl (update_object-Same _ next_sequence_id-Keeps p s)
  step-Changes (expires key) s = inr (inr (key, refl, refl))
  step-Changes (replies header body now) s =
      inl (handle_downstream-Same decrypt writes header body now s)

  pub step-Inv :
      (e : Event) (s : Sessions)
      → s.session_counter + 1 < 2 ^ 32
      → Inv s
      → Inv (step unmap decrypt writes s e)
  step-Inv e s room v = elim (step-Changes e s) [
    | inl same ↦ Same-Inv same v
    | inr (inl (addr, now, free, made)) ↦
        subst Inv (sym made) (create_session-Inv addr now s v free room)
    | inr (inr (key, which, less)) ↦ subst Inv (sym less) (remove_session-Inv key s v)
  ]

  pub step-counter :
      (e : Event) (s : Sessions)
      → (step unmap decrypt writes s e).session_counter ≤ s.session_counter + 1
  step-counter e s = elim (step-Changes e s) [
    | inl same ↦ omega (arith, same.counter)
    | inr (inl (addr, now, free, made)) ↦
        omega (arith, ap (λ t. t.session_counter) made, create_session-counter addr now s)
    | inr (inr (key, which, less)) ↦
        omega (arith, ap (λ t. t.session_counter) less, remove_session-counter key s)
  ]

  pub run-Inv :
      (es : List Event) (s : Sessions)
      → s.session_counter + length es < 2 ^ 32
      → Inv s
      → Inv (run unmap decrypt writes s es)
        × ((run unmap decrypt writes s es).session_counter ≤ s.session_counter + length es)
  unfolding run
  run-Inv [] s room v = (v, omega arith)
  run-Inv (e ∷ es) s room v =
      let up = step-counter e s in
      let (w, below) =
        run-Inv es (step unmap decrypt writes s e) (omega (arith, up))
          (step-Inv e s (omega arith) v) in
      (w, omega (arith, up, below))
