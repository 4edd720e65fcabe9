-- ===== src/Config/Defaults.antt =====
-- internal/config/config.go, setDefaults: what holds of every configuration that Load returns.
use t2d.Base.{ℕ, ◌≡◌, ◌≢◌, refl, List, [], ◌∷◌, true, arith}
use t2d.Base.Int.{ℤ, pos, negsuc, leb_ℤ, ltb_ℤ}
use t2d.Config.{Config, set_fixed, set_defaults, default_crypto, positive_or, at_least, text_or}

positive_or-positive :
    (d : ℕ) (x : ℤ) → ltb_ℤ (pos 0) (pos d) ≡ true → ltb_ℤ (pos 0) (positive_or (pos d) x) ≡ true
positive_or-positive d (pos n) h = ground arith
positive_or-positive d (negsuc n) h = ground arith

at_least-le : (a x : ℤ) → leb_ℤ a (at_least a x) ≡ true
at_least-le (pos a) (pos n) = ground arith
at_least-le (pos a) (negsuc n) = ground arith
at_least-le (negsuc a) (pos n) = ground arith
at_least-le (negsuc a) (negsuc n) = ground arith

text_or-nonempty : (x : ℕ) (d : List ℕ) (t : List ℕ) → text_or (x ∷ d) t ≢ []
text_or-nonempty x d [] e = cc
text_or-nonempty x d (y ∷ t) e = cc

-- What the client and the server rely on.
pub record IsUsable (c : Config) : Type 0 where
  pub interval : ltb_ℤ (pos 0) c.reconnect_interval ≡ true
  pub max_interval : leb_ℤ c.reconnect_interval c.reconnect_max_interval ≡ true
  pub jitter : leb_ℤ (pos 0) c.reconnect_jitter_ms ≡ true
  pub timeout : ltb_ℤ (pos 0) c.session_timeout ≡ true
  pub buffer : ltb_ℤ (pos 0) c.buffer_size ≡ true
  pub packet : ltb_ℤ (pos 0) c.max_packet_size ≡ true
  pub level : c.log_level ≢ []
  pub upstream_cipher : c.upstream_crypto.type ≢ []
  pub downstream_cipher : c.downstream_crypto.type ≢ []

-- Whatever a file holds, after setDefaults the first reconnect interval is positive and no more than
-- the largest one, the jitter is not negative, session timeout, buffer size and packet size are
-- positive, and log level and cipher types are not empty.
pub set_defaults-IsUsable : (c : Config) → IsUsable (set_defaults c)
unfolding set_defaults set_fixed default_crypto
set_defaults-IsUsable c = record {
  interval = positive_or-positive 1 c.reconnect_interval refl;
  max_interval =
      at_least-le (positive_or (pos 1) c.reconnect_interval)
        (positive_or (pos 30) c.reconnect_max_interval);
  jitter = at_least-le (pos 0) c.reconnect_jitter_ms;
  timeout = positive_or-positive 300 c.session_timeout refl;
  buffer = positive_or-positive 65536 c.buffer_size refl;
  packet = positive_or-positive 65536 c.max_packet_size refl;
  level = text_or-nonempty 0x69 _ c.log_level;
  upstream_cipher = text_or-nonempty 0x6e _ c.upstream_crypto.type;
  downstream_cipher = text_or-nonempty 0x6e _ c.downstream_crypto.type;
}
