-- ===== src/Server/Life.antt =====
-- internal/server/server.go, Stop and closeSessions, and internal/server/handlers.go, OnBoot and
-- OnShutdown: how the server ends.
pub mod Drained
mod Tests
use t2d.Base.{ℕ, List, [], ◌∷◌, ◌++◌, Bool, true, false, Option, none, some, if◌then◌else◌}
use t2d.Base.Maps.{Map}
use t2d.Stats.{Stats}
use t2d.Server.Sessions.{SessionTable, close_session, new_table}

-- An engine of gnet is a number; `none` is the zero value that the field has before OnBoot. `stops` are
-- the engines whose Stop was called.
pub record ServerLife : Type 0 where
  pub upstream_engine : Option ℕ
  pub downstream_engine : Option ℕ
  pub upstream_running : Bool
  pub downstream_running : Bool
  pub cancelled : Bool
  pub stops : List (Option ℕ)
  pub table : SessionTable

-- The handlers that gnet calls when an engine starts and when it ends.
pub on_boot_upstream : ℕ → ServerLife → ServerLife
on_boot_upstream eng s = record s { upstream_engine = some eng; upstream_running = true }

pub on_shutdown_upstream : ServerLife → ServerLife
on_shutdown_upstream s = record s { upstream_running = false }

pub on_boot_downstream : ℕ → ServerLife → ServerLife
on_boot_downstream eng s = record s { downstream_engine = some eng; downstream_running = true }

pub on_shutdown_downstream : ServerLife → ServerLife
on_shutdown_downstream s = record s { downstream_running = false }

-- `s.sessions.Range(…)`, which closes each connection and leaves the map.
pub close_all : Map ℕ → SessionTable → SessionTable
close_all [] s = s
close_all ((sid, p) ∷ m) s = close_all m (close_session p s)

pub close_sessions : SessionTable → SessionTable
unfolding close_all
close_sessions s = close_all s.sessions s

abbrev stop_running : Bool → Option ℕ → ServerLife → ServerLife
stop_running running eng s = if running then record s { stops = s.stops ++ (eng ∷ []) } else s

pub stop : ServerLife → ServerLife
unfolding close_sessions
stop s =
    let s1 = record s { cancelled = true } in
    let s2 = stop_running s1.upstream_running s1.upstream_engine s1 in
    let s3 = stop_running s2.downstream_running s2.downstream_engine s2 in
    record s3 { table = close_sessions s3.table }
