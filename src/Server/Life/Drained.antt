-- ===== src/Server/Life/Drained.antt =====
-- internal/server/server.go, Stop: what it leaves of the sessions once their readers have ended.
use mathlib.Core.Option.{some-injective}
use t2d.Base.{
  ℕ, ◌+◌, ◌^◌, ◌<◌, ◌≡◌, ◌≢◌, refl, ◌∙◌, ap, inl, inr, List, [], ◌∷◌, Bool, true, false, some,
  arith, length, Bool-cases, ◌==◌, ==_self, if◌then◌else◌, Result,
}
use t2d.Base.Int.{ℤ}
use t2d.Base.Maps.{Map, load}
use t2d.Stats
use t2d.Stats.{Stats}
use t2d.Server.Sessions.{SessionTable, close_session, has_reader, fail_read, new_table, Event, run}
use t2d.Server.Sessions.Count.{Within, Same-Within, fail_read-Within}
use t2d.Server.Sessions.Count.Run.{run-Within, new_table-Within}
use t2d.Server.Sessions.Readers.{
  IsRead, Alike, Alike-IsRead, close_session-Alike, close_session-stats, close_session-closed,
}
use t2d.Server.Sessions.Readers.Ends.{fail_read-left, fail_read_ended, fail_read-IsRead}
use t2d.Server.Sessions.Readers.Run.{run-IsRead}
use t2d.Server.Life.{ServerLife, close_all, close_sessions, stop}

-- handleBackendData ends for one session after another, each with an error that counts or without.
abbrev pub end_readers : List (Bool × ℕ) → SessionTable → SessionTable
end_readers [] s = s
end_readers ((counts, p) ∷ rs) s = end_readers rs (fail_read counts p s)

abbrev pub ends : ℕ → List (Bool × ℕ) → Bool
ends q [] = false
ends q ((counts, p) ∷ rs) = if p == q then true else ends q rs

end_readers-left :
    (rs : List (Bool × ℕ)) (i q : ℕ) (s : SessionTable)
    → IsRead s
    → load i (end_readers rs s).sessions ≡ some q
    → (ends q rs ≡ false) × (load i s.sessions ≡ some q)
end_readers-left [] i q s v e = (refl, e)
end_readers-left ((counts, p) ∷ rs) i q s v e =
    let (later, left) =
      end_readers-left rs i q (fail_read counts p s) (fail_read-IsRead counts p s v) e in
    elim (Bool-cases (has_reader p s.readers)) [
      | inl reads ↦
          let (apart, old) = fail_read-left counts p i q s v.table reads left in
          (rw apart later, old)
      | inr ended ↦
          let old : load i s.sessions ≡ some q = rw (fail_read_ended counts p s ended) at left in
          elim (Bool-cases (p == q)) [
            | inl hit ↦ absurd (ground (arith, hit, ended, v.read i q old))
            | inr miss ↦ (rw miss later, old)
          ]
    ]

end_readers-Within :
    (n : ℕ) (rs : List (Bool × ℕ)) (s : SessionTable)
    → n < 2 ^ 32
    → Within n s
    → Within n (end_readers rs s)
end_readers-Within n [] s small w = w
end_readers-Within n ((counts, p) ∷ rs) s small w =
    end_readers-Within n rs (fail_read counts p s) small (fail_read-Within n counts p s small w)

-- Where a map gives nothing for any number, nothing is in it.
load_none : (m : Map ℕ) → ((i q : ℕ) → load i m ≢ some q) → m ≡ []
unfolding load
load_none [] gone = refl
load_none ((i, q) ∷ m) gone = absurd (gone i q (rw (==_self i) refl))

-- What closing connections keeps.
record Closes (s t : SessionTable) : Type 0 where
  alike : Alike s t
  stats : t.stats ≡ s.stats
  still : (q : ℕ) → (s.objects q).closed ≡ true → (t.objects q).closed ≡ true

close_all-Closes : (m : Map ℕ) (s : SessionTable) → Closes s (close_all m s)
unfolding close_all
close_all-Closes [] s = record {
  alike = record { sessions = refl; allocated = refl; readers = refl; numbers = λ p. refl };
  stats = refl;
  still = λ q closed. closed;
}
close_all-Closes ((sid, p) ∷ m) s =
    let one = close_session-Alike p s in
    let rest = close_all-Closes m (close_session p s) in
    record {
      alike = record {
        sessions = rest.alike.sessions ∙ one.sessions;
        allocated = rest.alike.allocated ∙ one.allocated;
        readers = rest.alike.readers ∙ one.readers;
        numbers = λ q. rest.alike.numbers q ∙ one.numbers q;
      };
      stats = rest.stats ∙ close_session-stats p s;
      still = λ q closed. rest.still q (ground (arith, close_session-closed p q s, closed));
    }

close_all-closed :
    (m : Map ℕ) (s : SessionTable) (sid p : ℕ)
    → load sid m ≡ some p
    → ((close_all m s).objects p).closed ≡ true
unfolding close_all load
close_all-closed [] s sid p e = cc
close_all-closed ((i, q) ∷ m) s sid p e = elim (Bool-cases (i == sid)) [
  | inl hit ↦
      let here : q ≡ p = some-injective q p (rw hit at e) in
      (close_all-Closes m (close_session q s)).still p
        (ground (arith, close_session-closed q p s, here))
  | inr miss ↦ close_all-closed m (close_session q s) sid p (rw miss at e)
]

-- What Stop leaves: the sessions that it found, each with its connection closed, and once the readers
-- in `rs` have ended too, nothing in the map and nothing counted.
pub record IsStopped (s : ServerLife) (rs : List (Bool × ℕ)) : Type 0 where
  pub closed : (sid p : ℕ) → load sid s.table.sessions ≡ some p → (s.table.objects p).closed ≡ true
  pub gone : (end_readers rs s.table).sessions ≡ []
  pub uncounted : (end_readers rs s.table).stats.active_sessions ≡ 0

stop-table : (s : ServerLife) → (stop s).table ≡ close_sessions s.table
unfolding stop
stop-table s = elim (Bool-cases s.upstream_running) [
  | inl up ↦ elim (Bool-cases s.downstream_running) [
    | inl down ↦ rw (up, down, stop) refl
    | inr idle ↦ rw (up, idle, stop) refl
  ]
  | inr off ↦ elim (Bool-cases s.downstream_running) [
    | inl down ↦ rw (off, down, stop) refl
    | inr idle ↦ rw (off, idle, stop) refl
  ]
]

stop-IsStopped_lem :
    (n : ℕ) (s : ServerLife) (rs : List (Bool × ℕ))
    → n < 2 ^ 32
    → Within n s.table
    → IsRead s.table
    → ((p : ℕ) → has_reader p s.table.readers ≡ true → ends p rs ≡ true)
    → IsStopped (stop s) rs
unfolding close_sessions
stop-IsStopped_lem n s rs small w v all_end =
    let t = s.table in
    let u = close_sessions t in
    let c = close_all-Closes t.sessions t in
    let read = Alike-IsRead c.alike v in
    let gone : (end_readers rs u).sessions ≡ [] = load_none _ (λ i q e.
      let (missed, there) = end_readers-left rs i q u read e in
      absurd (ground (arith, missed, all_end q (v.read i q (rw (c.alike.sessions) at there))))) in
    let within = end_readers-Within n rs u small (
      Same-Within
        (record { sessions = c.alike.sessions; active = ap (λ x. x.active_sessions) c.stats }) w) in
    record {
      closed = λ sid p e.
          let there : load sid u.sessions ≡ some p = rw (stop-table s) at e in
          rw (stop-table s) (close_all-closed t.sessions t sid p (rw (c.alike.sessions) at there));
      gone = rw (stop-table s) gone;
      uncounted = rw (stop-table s) (within.counted.shown ∙ ap length gone);
    }

module _ (accepts : List (List ℕ) → List ℕ → Bool) (striped : Bool) (window hold : ℤ) {E : Type 0}
    (decrypt : List ℕ → Result E (List ℕ)) where
  -- A server, whatever its engines are and whether they run, that had no sessions and fresh counters,
  -- has come through fewer than 2³² packets, replies, failing reads and ticks of the clean-up in any
  -- order. After Stop each session in the map has its connection closed; and once handleBackendData
  -- has ended for the sessions for which it runs, in whatever order and with whatever errors, no session
  -- is in the map and the counter of active sessions is 0.
  pub stop-IsStopped :
      (now : ℕ) (es : List Event) (s : ServerLife) (rs : List (Bool × ℕ))
      → let table = run accepts striped window hold decrypt (new_table (Stats.new now)) es in
        length es < 2 ^ 32
        → ((p : ℕ) → has_reader p table.readers ≡ true → ends p rs ≡ true)
        → IsStopped (stop (record s { table = table })) rs
  stop-IsStopped now es s rs few all_end =
      stop-IsStopped_lem (0 + length es)
        (record s {
          table = run accepts striped window hold decrypt (new_table (Stats.new now)) es;
        })
        rs (omega (arith, few))
        (run-Within accepts striped window hold decrypt 0 es (new_table (Stats.new now))
          (omega (arith, few)) (new_table-Within accepts striped window hold decrypt now))
        (run-IsRead accepts striped window hold decrypt (Stats.new now) es) all_end
