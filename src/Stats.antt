-- ===== src/Stats.antt =====
-- internal/stats/stats.go: the counters, as the words that atomic.Uint64 and atomic.Int32 hold.
pub mod Counts
mod Tests
use t2d.Base.{ℕ, ◌+◌, ◌-◌, ◌%◌, ◌^◌, ltb, if◌then◌else◌}
use t2d.Base.Int.{ℤ, pos, negsuc}

-- `active_sessions` is the bit pattern of an int32; times are nanoseconds on a clock that does not
-- go back.
pub record Stats : Type 0 where
  pub bytes_sent : ℕ
  pub bytes_received : ℕ
  pub packets_sent : ℕ
  pub packets_received : ℕ
  pub errors : ℕ
  pub active_sessions : ℕ
  pub start_time : ℕ

abbrev pub add64 : ℕ → ℕ → ℕ
add64 a b = (a + b) % 2 ^ 64

unfoldable pub new : ℕ → Stats
new now = record {
  bytes_sent = 0;
  bytes_received = 0;
  packets_sent = 0;
  packets_received = 0;
  errors = 0;
  active_sessions = 0;
  start_time = now;
}

unfoldable pub add_bytes_sent : ℕ → Stats → Stats
add_bytes_sent n s = record s { bytes_sent = add64 s.bytes_sent n }

unfoldable pub add_bytes_received : ℕ → Stats → Stats
add_bytes_received n s = record s { bytes_received = add64 s.bytes_received n }

unfoldable pub add_packets_sent : ℕ → Stats → Stats
add_packets_sent n s = record s { packets_sent = add64 s.packets_sent n }

unfoldable pub add_packets_received : ℕ → Stats → Stats
add_packets_received n s = record s { packets_received = add64 s.packets_received n }

unfoldable pub add_error : Stats → Stats
add_error s = record s { errors = add64 s.errors 1 }

unfoldable pub add_active_session : Stats → Stats
add_active_session s = record s { active_sessions = (s.active_sessions + 1) % 2 ^ 32 }

-- `Add(-1)`
unfoldable pub remove_active_session : Stats → Stats
remove_active_session s = record s { active_sessions = (s.active_sessions + 2 ^ 32 - 1) % 2 ^ 32 }

-- `GetActiveSessions`: the int32 that the pattern stands for.
unfoldable pub get_active_sessions : Stats → ℤ
get_active_sessions s =
    if ltb s.active_sessions (2 ^ 31)
    then pos s.active_sessions
    else negsuc (2 ^ 32 - s.active_sessions - 1)

unfoldable pub get_uptime : ℕ → Stats → ℕ
get_uptime now s = now - s.start_time

unfoldable pub reset : ℕ → Stats → Stats
reset now s = record s {
  bytes_sent = 0;
  bytes_received = 0;
  packets_sent = 0;
  packets_received = 0;
  errors = 0;
  active_sessions = 0;
  start_time = now;
}

pub record Summary : Type 0 where
  pub bytes_sent : ℕ
  pub bytes_received : ℕ
  pub packets_sent : ℕ
  pub packets_received : ℕ
  pub errors : ℕ
  pub active_sessions : ℤ
  pub uptime : ℕ

unfoldable pub get_summary : ℕ → Stats → Summary
unfolding get_active_sessions get_uptime
get_summary now s = record {
  bytes_sent = s.bytes_sent;
  bytes_received = s.bytes_received;
  packets_sent = s.packets_sent;
  packets_received = s.packets_received;
  errors = s.errors;
  active_sessions = get_active_sessions s;
  uptime = get_uptime now s;
}
