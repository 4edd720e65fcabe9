-- ===== src/Client/Sessions/Create.antt =====
-- internal/client/client.go, getOrCreateSession: a new session in the maps.
use t2d.Base.{
  ℕ, ◌+◌, ◌%◌, ◌^◌, ◌≤◌, ◌<◌, ◌≡◌, refl, ap, sym, ◌∙◌, inl, inr, none, some, arith, ◌==◌, ==_self,
  if◌then◌else◌, Bool-cases,
}
use t2d.Base.Maps.{load, load-store_if}
use t2d.Session.{new_udp_session_addr_port}
use t2d.Client.Sessions.{Sessions, create_session, register_session_on_lane}
use t2d.Client.Sessions.Invariant.{Inv}

-- The maps and the objects behind a new session with a number that was not given before.
module _ (addr now : ℕ) (s : Sessions) (v : Inv s) (free : load addr s.sessions ≡ none)
    (room : s.session_counter + 1 < 2 ^ 32) where
  pub sid : ℕ
  sid = (s.session_counter + 1) % 2 ^ 32

  pub made : Sessions
  unfolding create_session register_session_on_lane
  made = (create_session addr now s).0

  new_object :
      (p : ℕ)
      → p ≡ s.allocated
      → ((made.objects p).remote_addr_port ≡ addr) × ((made.objects p).session_id ≡ sid)
  unfolding made sid new_udp_session_addr_port
  new_object p e = rw (e, ==_self s.allocated) (refl, refl)

  pub old_object : (p : ℕ) → p < s.allocated → made.objects p ≡ s.objects p
  unfolding made
  old_object p lt = ground arith

  sid_next : sid ≡ s.session_counter + 1
  unfolding sid
  sid_next = omega arith

  pub load_made :
      (a : ℕ) → load a made.sessions ≡ (if addr == a then some s.allocated else load a s.sessions)
  unfolding made
  load_made a = load-store_if a addr s.allocated s.sessions

  pub load_made_id :
      (i : ℕ)
      → load i made.sessions_by_id
        ≡ (if sid == i then some s.allocated else load i s.sessions_by_id)
  unfolding made sid
  load_made_id i = load-store_if i sid s.allocated s.sessions_by_id

  created_fwd :
      (a p : ℕ)
      → load a made.sessions ≡ some p
      → ((made.objects p).remote_addr_port ≡ a)
        × (load (made.objects p).session_id made.sessions_by_id ≡ some p)
  created_fwd a p h = elim (Bool-cases (addr == a)) [
    | inl hit ↦
        let p_new : s.allocated ≡ p = ground (arith, load_made a) in
        let o = new_object p (sym p_new) in
        (ground (arith, o.0), rw o.1 (load_made_id sid ∙ rw (==_self sid) (ap some p_new)))
    | inr miss ↦
        let old : load a s.sessions ≡ some p = ground (arith, load_made a) in
        let w = v.fwd a p old in
        let back = v.bwd (s.objects p).session_id p w.1 in
        rw (old_object p back.3)
          (w.0, ground (arith, load_made_id (s.objects p).session_id, sid_next, back.2, w.1))
  ]

  created_bwd :
      (i p : ℕ)
      → load i made.sessions_by_id ≡ some p
      → ((made.objects p).session_id ≡ i)
        × (load (made.objects p).remote_addr_port made.sessions ≡ some p)
        × (i ≤ s.session_counter + 1)
        × (p < s.allocated + 1)
  created_bwd i p h = elim (Bool-cases (sid == i)) [
    | inl hit ↦
        let p_new : s.allocated ≡ p = ground (arith, load_made_id i) in
        let o = new_object p (sym p_new) in
        (
          ground (arith, o.1),
          rw o.0 (load_made addr ∙ rw (==_self addr) (ap some p_new)),
          ground (arith, sid_next),
          omega (arith, p_new),
        )
    | inr miss ↦
        let old : load i s.sessions_by_id ≡ some p = ground (arith, load_made_id i) in
        let w = v.bwd i p old in
        rw (old_object p w.3) (
          w.0,
          ground (arith, load_made (s.objects p).remote_addr_port, w.1),
          omega (arith, w.2),
          omega (arith, w.3),
        )
  ]

  pub create_session-Inv : Inv (create_session addr now s).0
  unfolding create_session register_session_on_lane made sid
  create_session-Inv = record {
    fwd = λ a p h. created_fwd a p h;
    bwd = λ i p h. let w = created_bwd i p h in (w.0, w.1, omega (arith, w.2, sid_next), w.3);
  }
