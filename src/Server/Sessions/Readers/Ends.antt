-- ===== src/Server/Sessions/Readers/Ends.antt =====
-- internal/server/server.go, handleBackendData: what the end of a session's reader leaves.
use t2d.Base.{
  ℕ, ◌≡◌, refl, ◌∙◌, inl, inr, List, [], ◌∷◌, Bool, true, false, some, arith, Bool-cases, ◌==◌,
  Option-cases, if◌then◌else◌,
}
use t2d.Base.Maps.{load}
use t2d.Stats
use t2d.Stats.{Stats}
use t2d.Server.Sessions.{
  SessionTable, change_object, close_session, forget_session, end_reader, has_reader, drop_reader,
  fail_read,
}
use t2d.Server.Sessions.Serve.{IsTable}
use t2d.Server.Sessions.Readers.{IsRead, load-forget_session}

has_reader-drop :
    (p q : ℕ) (qs : List ℕ)
    → (p == q) ≡ false
    → has_reader q qs ≡ true
    → has_reader q (drop_reader p qs) ≡ true
unfolding has_reader drop_reader
has_reader-drop p q [] apart h = h
has_reader-drop p q (r ∷ rs) apart h = ground (arith, has_reader-drop p q rs apart)

-- A reader's end takes out its own session at least.
end_reader-left :
    (p i q : ℕ) (s : SessionTable)
    → IsTable s
    → load i (end_reader p s).sessions ≡ some q
    → ((p == q) ≡ false) × (load i s.sessions ≡ some q)
unfolding end_reader close_session
end_reader-left p i q s v e = elim (Option-cases (load (s.objects p).session_id s.sessions)) [
  | inl absent ↦
      let old : load i s.sessions ≡ some q = rw (absent, end_reader) at e in
      (
        elim (Bool-cases (p == q)) [
          | inl hit ↦ absurd (ground (arith, hit, absent, old, v.named i q old))
          | inr miss ↦ miss
        ],
        old,
      )
  | inr (r, there) ↦
      let (apart, old) =
        load-forget_session (s.objects p).session_id i q (close_session p s)
          (rw (there, end_reader) at e) in
      (
        elim (Bool-cases (p == q)) [
          | inl hit ↦ absurd (ground (arith, hit, apart, v.named i q old))
          | inr miss ↦ miss
        ],
        old,
      )
]

end_reader-kept :
    (p : ℕ) (s : SessionTable)
    → ((end_reader p s).allocated ≡ s.allocated)
      × ((end_reader p s).readers ≡ s.readers)
      × ((q : ℕ) → ((end_reader p s).objects q).session_id ≡ (s.objects q).session_id)
unfolding end_reader close_session forget_session change_object
end_reader-kept p s = elim (Option-cases (load (s.objects p).session_id s.sessions)) [
  | inl absent ↦ rw (absent, end_reader) (refl, refl, λ q. ground arith)
  | inr (r, there) ↦ rw (there, end_reader) (refl, refl, λ q. ground arith)
]

-- The table on which the deferred call of a reader runs.
abbrev leave_reader : Bool → ℕ → SessionTable → SessionTable
leave_reader counts p s = record s {
  readers = drop_reader p s.readers;
  stats = if counts then Stats.add_error s.stats else s.stats;
}

pub fail_read-left :
    (counts : Bool) (p i q : ℕ) (s : SessionTable)
    → IsTable s
    → has_reader p s.readers ≡ true
    → load i (fail_read counts p s).sessions ≡ some q
    → ((p == q) ≡ false) × (load i s.sessions ≡ some q)
unfolding fail_read
fail_read-left counts p i q s v reads e =
    end_reader-left p i q (leave_reader counts p s) (record { named = v.named; used = v.used })
      (rw (reads, fail_read) at e)

pub fail_read_ended :
    (counts : Bool) (p : ℕ) (s : SessionTable)
    → has_reader p s.readers ≡ false
    → fail_read counts p s ≡ s
unfolding fail_read
fail_read_ended counts p s ended = rw (ended, fail_read) refl

pub fail_read-IsRead :
    (counts : Bool) (p : ℕ) (s : SessionTable) → IsRead s → IsRead (fail_read counts p s)
unfolding fail_read
fail_read-IsRead counts p s v = elim (Bool-cases (has_reader p s.readers)) [
  | inr ended ↦ rw (ended, fail_read) v
  | inl reads ↦
      let t = leave_reader counts p s in
      let here : IsTable t = record { named = v.table.named; used = v.table.used } in
      let (allocated, readers, numbers) = end_reader-kept p t in
      rw (reads, fail_read)
        (record {
          table = record {
            named = λ i q e. numbers q ∙ v.table.named i q (end_reader-left p i q t here e).1;
            used = λ i q e. rw allocated (v.table.used i q (end_reader-left p i q t here e).1);
          };
          read = λ i q e.
              let (apart, old) = end_reader-left p i q t here e in
              rw readers (has_reader-drop p q s.readers apart (v.read i q old));
        })
]
