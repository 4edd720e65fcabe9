-- ===== src/Stats/Counts.antt =====
-- internal/stats/stats.go: the number of active sessions.
use t2d.Base.{ℕ, suc, ◌+◌, ◌-◌, ◌%◌, ◌^◌, ◌<◌, ◌≤◌, ◌≡◌, refl, List, [], ◌∷◌, arith}
use t2d.Base.Int.{pos}
use t2d.Stats.{Stats, new, add_active_session, remove_active_session, get_active_sessions}

-- A session is opened (AddActiveSession) or closed (RemoveActiveSession).
pub data Change : Type 0 where
  opened : Change
  closed : Change

unfoldable pub count_sessions : Stats → List Change → Stats
count_sessions s [] = s
count_sessions s (opened ∷ cs) = count_sessions (add_active_session s) cs
count_sessions s (closed ∷ cs) = count_sessions (remove_active_session s) cs

abbrev pub opens : List Change → ℕ
opens [] = 0
opens (opened ∷ cs) = suc (opens cs)
opens (closed ∷ cs) = opens cs

abbrev pub closes : List Change → ℕ
closes [] = 0
closes (opened ∷ cs) = closes cs
closes (closed ∷ cs) = suc (closes cs)

-- The counter, whatever it passes through on the way.
count_sessions-active :
    (s : Stats) (cs : List Change)
    → s.active_sessions < 2 ^ 32
    → ((count_sessions s cs).active_sessions + closes cs) % 2 ^ 32
      ≡ (s.active_sessions + opens cs) % 2 ^ 32
unfolding count_sessions add_active_session remove_active_session
count_sessions-active s [] h = refl
count_sessions-active s (opened ∷ cs) h =
    omega (arith, count_sessions-active (add_active_session s) cs (omega arith))
count_sessions-active s (closed ∷ cs) h =
    omega (arith, count_sessions-active (remove_active_session s) cs (omega arith))

count_sessions-small :
    (s : Stats) (cs : List Change)
    → s.active_sessions < 2 ^ 32
    → (count_sessions s cs).active_sessions < 2 ^ 32
unfolding count_sessions add_active_session remove_active_session
count_sessions-small s [] h = h
count_sessions-small s (opened ∷ cs) h =
    count_sessions-small (add_active_session s) cs (omega arith)
count_sessions-small s (closed ∷ cs) h =
    count_sessions-small (remove_active_session s) cs (omega arith)

-- From new counters on, with sessions opened and closed in any order: if no more are closed than
-- opened in all and fewer than 2³¹ are left, the number shown is the number opened less the number
-- closed.
pub get_active_sessions-count :
    (now : ℕ) (cs : List Change)
    → closes cs ≤ opens cs
    → opens cs - closes cs < 2 ^ 31
    → get_active_sessions (count_sessions (new now) cs) ≡ pos (opens cs - closes cs)
unfolding get_active_sessions new
get_active_sessions-count now cs le small =
    let shown = count_sessions-active (new now) cs (omega arith) in
    let fits = count_sessions-small (new now) cs (omega arith) in
    let value : (count_sessions (new now) cs).active_sessions ≡ opens cs - closes cs =
      omega arith in
    rw value (ground arith)
