-- ===== src/Client/Sessions/Talks.antt =====
-- internal/client/client.go, getOrCreateSession and NextSequenceID: the session of one application while
-- others come and go on.
use t2d.Base.{
  ℕ, ◌+◌, ◌^◌, ◌≤◌, ◌<◌, ◌≡◌, ◌≢◌, refl, sym, ap, ◌∙◌, inl, inr, none, some, arith, ==_self,
  Option-cases,
}
use mathlib.Core.Option.{some-injective}
use t2d.Base.Maps.{load}
use t2d.Session.{UdpSession, new_udp_session_addr_port, update_last_active, next_sequence_id}
use t2d.Stats.{Stats}
use t2d.Client.Sessions.{
  Sessions, update_object, create_session, register_session_on_lane, get_or_create_session,
}
use t2d.Client.Sessions.Invariant.{
  Inv, Same-Inv, update_object-Same, update_last_active-Keeps, next_sequence_id-Keeps,
}
use t2d.Client.Sessions.Create.{create_session-Inv}
use t2d.Client.Sessions.Steps.{get_or_create-found, get_or_create-free}
use t2d.Client.Sessions.Routing.{create_session-other, create_session-object, create_session_self}

-- The session of an address stands at `p`, has the number `sid`, and has drawn `k` as its last number.
pub record Talks (addr p sid k : ℕ) (s : Sessions) : Type 0 where
  pub inv : Inv s
  pub there : load addr s.sessions ≡ some p
  pub number : (s.objects p).session_id ≡ sid
  pub drawn : (s.objects p).sequence_id ≡ k

pub Inv-stats : {s : Sessions} (stats : Stats) → Inv s → Inv (record s { stats = stats })
Inv-stats stats v = record { fwd = v.fwd; bwd = v.bwd }

pub Talks-stats :
    {addr p sid k : ℕ} {s : Sessions} (stats : Stats)
    → Talks addr p sid k s
    → Talks addr p sid k (record s { stats = stats })
Talks-stats stats v = record {
  inv = Inv-stats stats v.inv;
  there = v.there;
  number = v.number;
  drawn = v.drawn;
}

touch-Talks :
    {addr p sid k : ℕ} (now q : ℕ) (s : Sessions)
    → Talks addr p sid k s
    → Talks addr p sid k (update_object (update_last_active now) q s)
unfolding update_object update_last_active
touch-Talks now q s v =
    let same = update_object-Same (update_last_active now) (update_last_active-Keeps now) q s in
    record {
      inv = Same-Inv same v.inv;
      there = v.there;
      number = same.number _ ∙ v.number;
      drawn = ground (arith, v.drawn);
    }

-- A number that another session draws, and one that this session draws.
pub draw-Talks_other :
    {addr p sid k : ℕ} (q : ℕ) (s : Sessions)
    → q ≢ p
    → Talks addr p sid k s
    → Talks addr p sid k (update_object (λ o. (next_sequence_id o).0) q s)
unfolding update_object next_sequence_id
draw-Talks_other q s apart v =
    let same = update_object-Same (λ o. (next_sequence_id o).0) next_sequence_id-Keeps q s in
    record {
      inv = Same-Inv same v.inv;
      there = v.there;
      number = same.number _ ∙ v.number;
      drawn = ground (arith, apart, v.drawn);
    }

pub draw-Talks :
    {addr p sid k : ℕ} (s : Sessions)
    → k + 1 < 2 ^ 32
    → Talks addr p sid k s
    → Talks addr p sid (k + 1) (update_object (λ o. (next_sequence_id o).0) p s)
unfolding update_object next_sequence_id
draw-Talks {addr} {p} s small v =
    let same = update_object-Same (λ o. (next_sequence_id o).0) next_sequence_id-Keeps p s in
    record {
      inv = Same-Inv same v.inv;
      there = v.there;
      number = same.number _ ∙ v.number;
      drawn = rw (==_self p, v.drawn) (omega arith);
    }

-- Another address has another session, and that another number.
pub Talks-apart :
    {addr p sid k : ℕ} {s : Sessions} (b q : ℕ)
    → b ≢ addr
    → load b s.sessions ≡ some q
    → Talks addr p sid k s
    → (q ≢ p) × ((s.objects q).session_id ≢ sid)
Talks-apart {addr} {p} {sid} {k} {s} b q apart there v =
    let w = v.inv.fwd b q there in
    let mine = v.inv.fwd addr p v.there in
    let ne : q ≢ p = λ e. apart (sym w.0 ∙ ap (λ i. (s.objects i).remote_addr_port) e ∙ mine.0) in
    (
      ne,
      λ e. ne (
          some-injective q p
            (sym w.1 ∙ ap (λ i. load i s.sessions_by_id) (e ∙ sym v.number) ∙ mine.1)),
    )

module _ (unmap : ℕ → ℕ) (addr now : ℕ) (s : Sessions) where
  pub get_or_create-counter :
      (get_or_create_session unmap addr now s).0.session_counter ≤ s.session_counter + 1
  unfolding get_or_create_session create_session register_session_on_lane update_object
  get_or_create-counter = ground arith

  pub get_or_create-load :
      load (unmap addr) (get_or_create_session unmap addr now s).0.sessions
      ≡ some (get_or_create_session unmap addr now s).1
  unfolding update_object
  get_or_create-load = elim (Option-cases (load (unmap addr) s.sessions)) [
    | inl free ↦
        rw (get_or_create-free unmap addr now s free) (create_session_self (unmap addr) now s)
    | inr (q, found) ↦ rw (get_or_create-found unmap addr now s found) found
  ]

  pub get_or_create-Talks :
      {a p sid k : ℕ}
      → s.session_counter + 1 < 2 ^ 32
      → Talks a p sid k s
      → Talks a p sid k (get_or_create_session unmap addr now s).0
  get_or_create-Talks {a} {p} {sid} {k} room v =
      elim (Option-cases (load (unmap addr) s.sessions)) [
        | inr (q, found) ↦ rw (get_or_create-found unmap addr now s found) (touch-Talks now q s v)
        | inl free ↦
            let old = v.inv.bwd _ p (v.inv.fwd a p v.there).1 in
            let object = create_session-object (unmap addr) now s p old.3 in
            rw (get_or_create-free unmap addr now s free) (record {
              inv = create_session-Inv (unmap addr) now s v.inv free room;
              there = create_session-other (unmap addr) now s a free v.there;
              number = ap (λ (o : UdpSession). o.session_id) object ∙ v.number;
              drawn = ap (λ (o : UdpSession). o.sequence_id) object ∙ v.drawn;
            })
      ]

  -- The session that a first datagram makes.
  pub get_or_create_new :
      load (unmap addr) s.sessions ≡ none
      → s.session_counter + 1 < 2 ^ 32
      → Inv s
      → Talks
          (unmap addr)
          (get_or_create_session unmap addr now s).1
          (s.session_counter + 1)
          0
          (get_or_create_session unmap addr now s).0
  unfolding create_session register_session_on_lane new_udp_session_addr_port
  get_or_create_new free room v = rw (get_or_create-free unmap addr now s free) (record {
    inv = create_session-Inv (unmap addr) now s v free room;
    there = create_session_self (unmap addr) now s;
    number = rw (==_self s.allocated) (omega arith);
    drawn = rw (==_self s.allocated) refl;
  })
