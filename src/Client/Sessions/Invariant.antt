-- ===== src/Client/Sessions/Invariant.antt =====
-- internal/client/client.go: what the two maps of sessions have to do with each other.
use t2d.Base.{ℕ, ◌≤◌, ◌<◌, ◌≡◌, refl, ap, ap₂, sym, ◌∙◌, inl, inr, some, arith, ◌==◌, Bool-cases}
use t2d.Base.Maps.{load}
use t2d.Session.{UdpSession, update_last_active, next_sequence_id}
use t2d.Client.Sessions.{Sessions, update_object}

-- `fwd`: what the map by address holds is a session with that address, which the map by number holds
-- too; `bwd` the other way round.
pub record Inv (s : Sessions) : Type 0 where
  pub fwd :
      (addr p : ℕ)
      → load addr s.sessions ≡ some p
      → ((s.objects p).remote_addr_port ≡ addr)
        × (load (s.objects p).session_id s.sessions_by_id ≡ some p)
  pub bwd :
      (sid p : ℕ)
      → load sid s.sessions_by_id ≡ some p
      → ((s.objects p).session_id ≡ sid)
        × (load (s.objects p).remote_addr_port s.sessions ≡ some p)
        × (sid ≤ s.session_counter)
        × (p < s.allocated)

-- `t` has the sessions of `s`, under their numbers and addresses.
pub record Same (s t : Sessions) : Type 0 where
  pub sessions : t.sessions ≡ s.sessions
  pub sessions_by_id : t.sessions_by_id ≡ s.sessions_by_id
  pub counter : t.session_counter ≡ s.session_counter
  pub allocated : t.allocated ≡ s.allocated
  pub active : t.stats.active_sessions ≡ s.stats.active_sessions
  pub number : (p : ℕ) → (t.objects p).session_id ≡ (s.objects p).session_id
  pub address : (p : ℕ) → (t.objects p).remote_addr_port ≡ (s.objects p).remote_addr_port

pub Same-Inv : {s t : Sessions} → Same s t → Inv s → Inv t
Same-Inv {s} {t} e v = record {
  fwd = λ addr p h.
      let w = v.fwd addr p (ap (load addr) (sym e.sessions) ∙ h) in
      (e.address p ∙ w.0, ap₂ load (e.number p) e.sessions_by_id ∙ w.1);
  bwd = λ sid p h.
      let w = v.bwd sid p (ap (load sid) (sym e.sessions_by_id) ∙ h) in
      (
        e.number p ∙ w.0,
        ap₂ load (e.address p) e.sessions ∙ w.1,
        omega (arith, w.2, e.counter),
        omega (arith, w.3, e.allocated),
      );
}

-- An update that leaves the address and the number of a session as they are.
pub record Keeps (f : UdpSession → UdpSession) : Type 0 where
  pub number : (o : UdpSession) → (f o).session_id ≡ o.session_id
  pub address : (o : UdpSession) → (f o).remote_addr_port ≡ o.remote_addr_port

module _ (f : UdpSession → UdpSession) (k : Keeps f) (p : ℕ) (s : Sessions) where
  same_number : (q : ℕ) → ((update_object f p s).objects q).session_id ≡ (s.objects q).session_id
  unfolding update_object
  same_number q = elim (Bool-cases (p == q)) [
    | inl hit ↦
        let e : p ≡ q = ground arith in
        rw hit (k.number (s.objects p) ∙ ap (λ (i : ℕ). (s.objects i).session_id) e)
    | inr miss ↦ rw miss refl
  ]

  same_address :
      (q : ℕ) → ((update_object f p s).objects q).remote_addr_port ≡ (s.objects q).remote_addr_port
  unfolding update_object
  same_address q = elim (Bool-cases (p == q)) [
    | inl hit ↦
        let e : p ≡ q = ground arith in
        rw hit (k.address (s.objects p) ∙ ap (λ (i : ℕ). (s.objects i).remote_addr_port) e)
    | inr miss ↦ rw miss refl
  ]

  pub update_object-Same : Same s (update_object f p s)
  unfolding update_object
  update_object-Same = record {
    sessions = refl;
    sessions_by_id = refl;
    counter = refl;
    allocated = refl;
    active = refl;
    number = same_number;
    address = same_address;
  }

pub update_last_active-Keeps : (now : ℕ) → Keeps (update_last_active now)
unfolding update_last_active
update_last_active-Keeps now = record { number = λ o. refl; address = λ o. refl }

pub next_sequence_id-Keeps : Keeps (λ o. (next_sequence_id o).0)
unfolding next_sequence_id
next_sequence_id-Keeps = record { number = λ o. refl; address = λ o. refl }
