-- ===== src/Stats/Tests.antt =====
-- Three sessions of which one is closed.
use t2d.Base.{◌≡◌, [], ◌∷◌, arith}
use t2d.Base.Int.{pos}
use t2d.Stats.{new, get_active_sessions}
use t2d.Stats.Counts.{opened, closed, count_sessions, get_active_sessions-count}

get_active_sessions-count_example :
    get_active_sessions (count_sessions (new 100) (opened ∷ opened ∷ closed ∷ opened ∷ [])) ≡ pos 2
get_active_sessions-count_example =
    get_active_sessions-count 100 (opened ∷ opened ∷ closed ∷ opened ∷ []) (omega arith)
      (omega arith)
