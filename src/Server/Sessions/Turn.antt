-- ===== src/Server/Sessions/Turn.antt =====
-- internal/server/server.go, handleUpstreamPacket: a session's packets that come one after another,
-- among those of other sessions.
use t2d.Base.{
  ℕ, suc, ◌<◌, ◌≡◌, ◌≢◌, refl, ap, ◌∙◌, List, [], ◌∷◌, ◌++◌, Bool, true, false, some, arith,
  Bool-cases, inl, inr, ◌==◌, ==_self,
}
use t2d.Base.Int.{ℤ}
use t2d.Base.Maps.{load, load-store, load-erase}
use t2d.Server.Backend.{Backend}
use t2d.Server.Reorder.Ready.{last_seq}
use t2d.Server.Reorder.Catch.{write_taken}
use t2d.Server.Reorder.Turn.{InTurn, reorder-Turned}
use t2d.Server.Sessions.{
  SessionTable, change_object, update_last_active, add_session, find_session, reorder_state,
  put_backend, write_in_order, write_upstream_to_backend,
}
use t2d.Server.Sessions.Serve.{
  IsTable, Serves, Awaits, update_last_active-IsTable, add_session-IsTable,
}

-- The session of a number that has one, and a new session.
pub find_session_own :
    (dialed : Bool) (now : ℕ) {striped : Bool} {sid p seq : ℕ} {sent : List (List ℕ)}
    (s : SessionTable)
    → Serves striped sid p seq sent s
    → ((find_session dialed sid now s).1 ≡ some p)
      × Serves striped sid p seq sent (find_session dialed sid now s).0
unfolding find_session update_last_active change_object
find_session_own dialed now {striped} {sid} {p} s v =
    rw (v.there, find_session)
      (
        refl,
        record {
          table = update_last_active-IsTable now p s v.table;
          there = v.there;
          passed = rw (==_self p) v.passed;
          turn = v.turn;
        },
      )

pub find_session_new :
    (now seq : ℕ) {striped : Bool} {sid : ℕ} (s : SessionTable)
    → Awaits sid s
    → ((find_session true sid now s).1 ≡ some s.allocated)
      × Serves striped sid s.allocated seq [] (find_session true sid now s).0
unfolding find_session add_session change_object reorder_state
find_session_new now seq {striped} {sid} s v =
    rw (v.absent, find_session)
      (
        refl,
        record {
          table = add_session-IsTable sid now s v.absent v.table;
          there = load-store sid s.allocated s.sessions;
          passed = rw (==_self s.allocated) refl;
          turn = λ _. rw (v.stale) (refl, inl refl);
        },
      )

pub put-IsTable : (q : ℕ) (b : Backend) (s : SessionTable) → IsTable s → IsTable (put_backend q b s)
unfolding put_backend change_object
put-IsTable q b s v = record { named = λ i r e. ground (arith, v.named i r e); used = v.used }

module _ (accepts : List (List ℕ) → List ℕ → Bool) (window hold : ℤ) where
  pub write_in_order-IsTable :
      (striped : Bool) (q n : ℕ) (payload : List ℕ) (now : ℕ) (s : SessionTable)
      → IsTable s
      → IsTable (write_in_order accepts striped window hold q n payload now s)
  unfolding write_in_order put_backend change_object
  write_in_order-IsTable striped q n payload now s v = record {
    named = λ i r e. ground (arith, v.named i r e);
    used = v.used;
  }

  -- A write to another session's connection.
  pub write_upstream-other :
      {striped : Bool} {sid p seq : ℕ} {sent : List (List ℕ)} (q n : ℕ) (payload : List ℕ) (now : ℕ)
      (s : SessionTable)
      → (s.objects q).session_id ≢ sid
      → Serves striped sid p seq sent s
      → Serves striped sid p seq sent
          (write_upstream_to_backend accepts striped window hold q n payload now s)
  unfolding write_upstream_to_backend write_in_order put_backend change_object
  write_upstream-other {striped} {sid} {p} q n payload now s apart v =
      let at : (q == p) ≡ false = elim (Bool-cases (q == p)) [
        | inl hit ↦ absurd (apart (ground (arith, hit, v.table.named sid p v.there)))
        | inr miss ↦ miss
      ] in
      let no : ((s.objects q).session_id == sid) ≡ false = ground (arith, apart) in
      elim (Bool-cases striped) [
        | inr plain ↦
            rw (plain, write_upstream_to_backend)
              (record {
                table = put-IsTable q _ s v.table;
                there = v.there;
                passed = rw at v.passed;
                turn = λ on. v.turn (plain ∙ on);
              })
        | inl on ↦
            rw (on, write_upstream_to_backend)
              (record {
                table = write_in_order-IsTable striped q n payload now s v.table;
                there = v.there;
                passed = rw at v.passed;
                turn = λ _.
                    rw (no, load-erase sid (s.objects q).session_id s.upstream_reorder_states, no)
                      (v.turn on);
              })
      ]

  module _ (all_taken : (sent : List (List ℕ)) (p : List ℕ) → accepts sent p ≡ true) where
    pub write_upstream_own :
        {striped : Bool} {sid p seq : ℕ} {sent : List (List ℕ)} (payload : List ℕ) (now : ℕ)
        (s : SessionTable)
        → seq < last_seq
        → Serves striped sid p seq sent s
        → Serves striped sid p
            (suc seq)
            (sent ++ (payload ∷ []))
            (write_upstream_to_backend accepts striped window hold p seq payload now s)
    unfolding write_upstream_to_backend write_in_order put_backend change_object reorder_state
    write_upstream_own {striped} {sid} {p} {seq} {sent} payload now s small v =
        let named = v.table.named sid p v.there in
        let old : Backend = record { sent = (s.objects p).sent; stats = s.stats } in
        elim (Bool-cases striped) [
          | inr plain ↦
              rw (plain, write_upstream_to_backend)
                (record {
                  table = put-IsTable p _ s v.table;
                  there = v.there;
                  passed = rw (==_self p) (
                      (write_taken (λ n. []) 0 0 0 [] accepts all_taken old payload).1
                      ∙ ap (λ xs. xs ++ (payload ∷ [])) v.passed);
                  turn = λ on. absurd (cc);
                })
          | inl on ↦
              let hit : ((s.objects p).session_id == sid) ≡ true = ground (arith, named) in
              let state = reorder_state (load (s.objects p).session_id s.upstream_reorder_states) in
              let turn : InTurn seq state = rw named (v.turn on) in
              let turned =
                reorder-Turned accepts all_taken window hold state old seq payload now turn small in
              rw (on, write_upstream_to_backend)
                (record {
                  table = write_in_order-IsTable striped p seq payload now s v.table;
                  there = v.there;
                  passed = rw (==_self p) (turned.1 ∙ ap (λ xs. xs ++ (payload ∷ [])) v.passed);
                  turn = λ _. rw hit (turned.0);
                })
        ]
