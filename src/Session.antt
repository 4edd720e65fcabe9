-- ===== src/Session.antt =====
-- internal/session/session.go: the state of a client's UDP session; a backend session has the same
-- operations on its counter and its clock.
pub mod Numbers
use t2d.Base.{ℕ, ◌+◌, ◌-◌, ◌%◌, ◌^◌, List, [], ◌∷◌, Bool, Option, none, some}
use t2d.Base.Int.{ℤ, pos, ltb_ℤ}

-- An address and a port are one number, and so is a connection. Times are nanoseconds on a clock
-- that does not go back.
pub record UdpSession : Type 0 where
  pub session_id : ℕ
  pub conn : Option ℕ
  pub remote_addr_port : ℕ
  pub last_active_unix_nano : ℕ
  pub sequence_id : ℕ

unfoldable pub new_udp_session_addr_port : ℕ → Option ℕ → ℕ → ℕ → UdpSession
new_udp_session_addr_port session_id conn remote_addr_port now = record {
  session_id = session_id;
  conn = conn;
  remote_addr_port = remote_addr_port;
  last_active_unix_nano = now;
  sequence_id = 0;
}

unfoldable pub update_last_active : ℕ → UdpSession → UdpSession
update_last_active now s = record s { last_active_unix_nano = now }

-- `atomic.AddUint32(&s.sequenceID, 1)`
unfoldable pub next_sequence_id : UdpSession → UdpSession × ℕ
next_sequence_id s = let n = (s.sequence_id + 1) % 2 ^ 32 in (record s { sequence_id = n }, n)

unfoldable pub is_expired : ℤ → ℕ → UdpSession → Bool
is_expired timeout now s = ltb_ℤ timeout (pos (now - s.last_active_unix_nano))
