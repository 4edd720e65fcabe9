-- ===== src/Server/Lanes/Replies.antt =====
-- internal/server/server.go, handleBackendData and sendToDownstream: the replies of the backends in the
-- channels of the lanes.
pub mod Carried
pub mod Queued
use t2d.Base.{ℕ, List, [], ◌∷◌, Option, none, some, if◌then◌else◌, ◌==◌, Result, ok, err}
use t2d.Crypto.{Cipher, CryptoError, encrypt}
use t2d.Server.Lanes.{Server, send_to_downstream}

-- What a session's reader has read from its backend, and the nonce that encrypting it draws.
pub record Reply : Type 0 where
  pub sid : ℕ
  pub buf : List ℕ
  pub nonce : Result ℕ (List ℕ)

-- `encryptedData, err := s.downstreamCipher.Encrypt(data)`
pub encrypted : Result CryptoError (List ℕ) → Option (List ℕ)
encrypted (ok body) = some body
encrypted (err e) = none

-- The server and the counter of each session.
abbrev pub Senders : Type 0
Senders = Server × (ℕ → ℕ)

abbrev pub put_counter : ℕ → ℕ → (ℕ → ℕ) → ℕ → ℕ
put_counter sid n counters i = if sid == i then n else counters i

module _ (cipher : Cipher) where
  pub send_reply : Reply → Senders → Senders
  unfolding encrypted send_to_downstream encrypt
  send_reply r (s, counters) =
      let (s', n) =
        send_to_downstream (λ bytes. encrypted (encrypt cipher r.nonce bytes)) r.sid
          (counters r.sid) r.buf s in
      (s', put_counter r.sid n counters)

  pub send_replies : List Reply → Senders → Senders
  unfolding send_reply
  send_replies [] c = c
  send_replies (r ∷ rs) c = send_replies rs (send_reply r c)
