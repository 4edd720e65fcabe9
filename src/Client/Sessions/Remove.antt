-- ===== src/Client/Sessions/Remove.antt =====
-- internal/client/client.go, cleanupSessions: the maps after a removal.
use t2d.Base.{
  ℕ, ◌≤◌, ◌<◌, ◌≡◌, ◌∙◌, inl, inr, false, none, some, arith, ◌==◌, if◌then◌else◌, Bool-cases,
  Option-cases,
}
use t2d.Base.Maps.{load, erase, load-erase}
use t2d.Client.Sessions.{Sessions, remove_session}
use t2d.Client.Sessions.Invariant.{Inv}

-- The session that is removed, and all others.
module _ (addr p : ℕ) (s : Sessions) (v : Inv s) (found : load addr s.sessions ≡ some p) where
  pub gone : ℕ
  gone = (s.objects p).session_id

  -- Another entry of the map by address is another session.
  pub other_number :
      (a q : ℕ)
      → load a s.sessions ≡ some q
      → (addr == a) ≡ false
      → (gone == (s.objects q).session_id) ≡ false
  unfolding gone
  other_number a q h miss =
      let w = v.fwd a q h in
      let mine = v.fwd addr p found in ground (arith, w.0, w.1, mine.0, mine.1)

  other_address :
      (i q : ℕ)
      → load i s.sessions_by_id ≡ some q
      → (gone == i) ≡ false
      → (addr == (s.objects q).remote_addr_port) ≡ false
  unfolding gone
  other_address i q h miss = let w = v.bwd i q h in ground (arith, w.0, w.1, found)

  left : Sessions
  unfolding gone
  left = record s { sessions = erase addr s.sessions; sessions_by_id = erase gone s.sessions_by_id }

  load_left : (a : ℕ) → load a left.sessions ≡ (if addr == a then none else load a s.sessions)
  unfolding left
  load_left a = load-erase a addr s.sessions

  load_left_id :
      (i : ℕ) → load i left.sessions_by_id ≡ (if gone == i then none else load i s.sessions_by_id)
  unfolding left gone
  load_left_id i = load-erase i gone s.sessions_by_id

  left_fwd :
      (a q : ℕ)
      → load a left.sessions ≡ some q
      → ((s.objects q).remote_addr_port ≡ a)
        × (load (s.objects q).session_id left.sessions_by_id ≡ some q)
  left_fwd a q h = elim (Bool-cases (addr == a)) [
    | inl hit ↦ absurd (ground (arith, load_left a))
    | inr miss ↦
        let old : load a s.sessions ≡ some q = ground (arith, load_left a) in
        let w = v.fwd a q old in
        (w.0, load_left_id (s.objects q).session_id ∙ rw (other_number a q old miss) w.1)
  ]

  left_bwd :
      (i q : ℕ)
      → load i left.sessions_by_id ≡ some q
      → ((s.objects q).session_id ≡ i)
        × (load (s.objects q).remote_addr_port left.sessions ≡ some q)
        × (i ≤ s.session_counter)
        × (q < s.allocated)
  left_bwd i q h = elim (Bool-cases (gone == i)) [
    | inl hit ↦ absurd (ground (arith, load_left_id i))
    | inr miss ↦
        let old : load i s.sessions_by_id ≡ some q = ground (arith, load_left_id i) in
        let w = v.bwd i q old in
        (
          w.0,
          load_left (s.objects q).remote_addr_port ∙ rw (other_address i q old miss) w.1,
          w.2,
          w.3,
        )
  ]

  removed-Inv : Inv (remove_session addr s)
  unfolding remove_session left gone
  removed-Inv =
      rw (found, remove_session)
        (record { fwd = λ a q h. left_fwd a q h; bwd = λ i q h. left_bwd i q h })

pub remove_session-Inv : (addr : ℕ) (s : Sessions) → Inv s → Inv (remove_session addr s)
unfolding remove_session
remove_session-Inv addr s v = elim (Option-cases (load addr s.sessions)) [
  | inl absent ↦ rw (absent, remove_session) v
  | inr (p, found) ↦ removed-Inv addr p s v found
]
