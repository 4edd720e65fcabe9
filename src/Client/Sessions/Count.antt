-- ===== src/Client/Sessions/Count.antt =====
-- internal/client/client.go: the maps of sessions and the counter of active sessions.
use t2d.Base.{
  ℕ, ◌+◌, ◌%◌, ◌^◌, ◌≤◌, ◌<◌, ◌≡◌, refl, subst, sym, ap, inl, inr, List, [], ◌∷◌, Bool, none, arith,
  length, Option-cases, Result,
}
use t2d.Base.Maps.{load, IsMap, store-IsMap, erase-IsMap, length-store_new, length-erase}
use t2d.Stats
use t2d.Stats.{Stats}
use t2d.Client.Sessions.{
  Sessions, Datagram, Event, create_session, register_session_on_lane, remove_session, step, run,
  new_sessions,
}
use t2d.Client.Sessions.Invariant.{Inv, Same}
use t2d.Client.Sessions.Steps.{new_sessions-Inv, step-Changes, step-Inv, step-counter}

-- The maps have no key twice, both have as many entries, and so many sessions are counted.
pub record Counted (s : Sessions) : Type 0 where
  pub by_address : IsMap s.sessions
  pub by_number : IsMap s.sessions_by_id
  pub equal : length s.sessions_by_id ≡ length s.sessions
  pub shown : s.stats.active_sessions ≡ length s.sessions
  pub few : length s.sessions ≤ s.session_counter

new_sessions-Counted :
    (chs : List (List ℕ)) (stats : Stats)
    → stats.active_sessions ≡ 0
    → Counted (new_sessions chs stats)
unfolding new_sessions
new_sessions-Counted chs stats h = record {
  by_address = tt;
  by_number = tt;
  equal = refl;
  shown = h;
  few = omega arith;
}

Same-Counted : {s t : Sessions} → Same s t → Counted s → Counted t
Same-Counted {s} {t} e c = record {
  by_address = subst IsMap (sym e.sessions) c.by_address;
  by_number = subst IsMap (sym e.sessions_by_id) c.by_number;
  equal = omega (arith, ap length e.sessions, ap length e.sessions_by_id, c.equal);
  shown = omega (arith, ap length e.sessions, e.active, c.shown);
  few = omega (arith, ap length e.sessions, e.counter, c.few);
}

-- A number above the counter is new.
number_free : (s : Sessions) → Inv s → load (s.session_counter + 1) s.sessions_by_id ≡ none
number_free s v = elim (Option-cases (load (s.session_counter + 1) s.sessions_by_id)) [
  | inl free ↦ free
  | inr (p, found) ↦ absurd (omega (arith, (v.bwd (s.session_counter + 1) p found).2))
]

create_session-Counted :
    (addr now : ℕ) (s : Sessions)
    → Inv s
    → load addr s.sessions ≡ none
    → s.session_counter + 1 < 2 ^ 32
    → Counted s
    → Counted (create_session addr now s).0
unfolding create_session register_session_on_lane Stats.add_active_session
create_session-Counted addr now s v free room c =
    let sid : (s.session_counter + 1) % 2 ^ 32 ≡ s.session_counter + 1 = omega arith in
    let fresh : load ((s.session_counter + 1) % 2 ^ 32) s.sessions_by_id ≡ none =
      rw sid (number_free s v) in
    let more = length-store_new addr s.allocated s.sessions free in
    record {
      by_address = store-IsMap addr s.allocated s.sessions c.by_address;
      by_number =
          store-IsMap ((s.session_counter + 1) % 2 ^ 32) s.allocated s.sessions_by_id c.by_number;
      equal = omega (
        arith,
        more,
        length-store_new ((s.session_counter + 1) % 2 ^ 32) s.allocated s.sessions_by_id fresh,
        c.equal,
      );
      shown = omega (arith, more, c.shown, c.few);
      few = omega (arith, more, sid, c.few);
    }

remove_session-Counted :
    (key : ℕ) (s : Sessions)
    → Inv s
    → s.session_counter < 2 ^ 32
    → Counted s
    → Counted (remove_session key s)
unfolding remove_session Stats.remove_active_session
remove_session-Counted key s v small c = elim (Option-cases (load key s.sessions)) [
  | inl absent ↦ rw (absent, remove_session) c
  | inr (p, found) ↦
      let fewer = length-erase key s.sessions c.by_address found in
      let sid = (s.objects p).session_id in
      let fewer_ids = length-erase sid s.sessions_by_id c.by_number (v.fwd key p found).1 in
      rw (found, remove_session)
        (record {
          by_address = erase-IsMap key s.sessions c.by_address;
          by_number = erase-IsMap sid s.sessions_by_id c.by_number;
          equal = omega (arith, fewer, fewer_ids, c.equal);
          shown = omega (arith, fewer, c.shown, c.few);
          few = omega (arith, fewer, c.few);
        })
]

module _ {E : Type 0} (unmap : ℕ → ℕ) (decrypt : List ℕ → Result E (List ℕ))
    (writes : Datagram → Bool) where
  step-Counted :
      (e : Event) (s : Sessions)
      → s.session_counter + 1 < 2 ^ 32
      → Inv s
      → Counted s
      → Counted (step unmap decrypt writes s e)
  step-Counted e s room v c = elim (step-Changes unmap decrypt writes e s) [
    | inl same ↦ Same-Counted same c
    | inr (inl (addr, now, free, made)) ↦
        subst Counted (sym made) (create_session-Counted addr now s v free room c)
    | inr (inr (key, which, less)) ↦
        subst Counted (sym less) (remove_session-Counted key s v (omega arith) c)
  ]

  run_from-Counted :
      (es : List Event) (s : Sessions)
      → s.session_counter + length es < 2 ^ 32
      → Inv s
      → Counted s
      → Counted (run unmap decrypt writes s es)
  unfolding run
  run_from-Counted [] s room v c = c
  run_from-Counted (e ∷ es) s room v c =
      run_from-Counted es (step unmap decrypt writes s e)
        (omega (arith, step-counter unmap decrypt writes e s))
        (step-Inv unmap decrypt writes e s (omega arith) v) (step-Counted e s (omega arith) v c)

  -- From a client with no sessions and fresh counters on, through fewer than 2³² arrivals, removals
  -- and replies in any order: no address and no number stands twice in its map, both maps have as many
  -- entries, and the counter of active sessions is that number.
  pub run-Counted :
      (chs : List (List ℕ)) (now : ℕ) (es : List Event)
      → length es < 2 ^ 32
      → Counted (run unmap decrypt writes (new_sessions chs (Stats.new now)) es)
  unfolding new_sessions Stats.new
  run-Counted chs now es few =
      let stats = Stats.new now in
      run_from-Counted es (new_sessions chs stats) (omega arith) (new_sessions-Inv chs stats)
        (new_sessions-Counted chs stats refl)
