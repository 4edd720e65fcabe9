-- ===== src/Config.antt =====
-- internal/config/config.go: the configuration and its default values. A string is the list of its
-- bytes.
pub mod Defaults
mod Tests
use t2d.Base.{ℕ, ◌*◌, List, [], ◌∷◌, Bool, true, false, ◌==◌, ◌&&◌, if◌then◌else◌}
use t2d.Base.Texts.{text_eq}
use t2d.Base.Int.{ℤ, pos, negsuc, ltb_ℤ, leb_ℤ}

pub record CryptoConfig : Type 0 where
  pub type : List ℕ
  pub password : List ℕ

pub record Config : Type 0 where
  pub mode : List ℕ
  pub listen_addr : List ℕ
  pub server_upstream : List ℕ
  pub server_downstream : List ℕ
  pub upstream_port : List ℕ
  pub downstream_port : List ℕ
  pub backend_addr : List ℕ
  pub reconnect_interval : ℤ
  pub reconnect_max_interval : ℤ
  pub reconnect_jitter_ms : ℤ
  pub session_timeout : ℤ
  pub buffer_size : ℤ
  pub max_packet_size : ℤ
  pub upstream_queue_size : ℤ
  pub upstream_batch_max_packets : ℤ
  pub upstream_batch_max_bytes : ℤ
  pub upstream_batch_max_delay_ms : ℤ
  pub upstream_stripe_enabled : Bool
  pub upstream_reorder_window : ℤ
  pub upstream_reorder_hold_ms : ℤ
  pub upstream_lane_count : ℤ
  pub downstream_lane_count : ℤ
  pub downstream_batch_max_packets : ℤ
  pub downstream_batch_max_bytes : ℤ
  pub downstream_batch_max_delay_ms : ℤ
  pub heartbeat_interval_ms : ℤ
  pub log_level : List ℕ
  pub upstream_crypto : CryptoConfig
  pub downstream_crypto : CryptoConfig

-- "none", "info", "client" and "server"
abbrev pub none_text : List ℕ
none_text = 0x6e ∷ 0x6f ∷ 0x6e ∷ 0x65 ∷ []

abbrev pub info_text : List ℕ
info_text = 0x69 ∷ 0x6e ∷ 0x66 ∷ 0x6f ∷ []

abbrev pub client_text : List ℕ
client_text = 0x63 ∷ 0x6c ∷ 0x69 ∷ 0x65 ∷ 0x6e ∷ 0x74 ∷ []

abbrev pub server_text : List ℕ
server_text = 0x73 ∷ 0x65 ∷ 0x72 ∷ 0x76 ∷ 0x65 ∷ 0x72 ∷ []

-- `if x <= 0 { x = d }`
abbrev pub positive_or : ℤ → ℤ → ℤ
positive_or d x = if leb_ℤ x (pos 0) then d else x

-- `if x < least { x = least }`
abbrev pub at_least : ℤ → ℤ → ℤ
at_least least x = if ltb_ℤ x least then least else x

-- `if x == "" { x = d }`
abbrev pub text_or : List ℕ → List ℕ → List ℕ
text_or d [] = d
text_or d (x ∷ xs) = x ∷ xs

pub default_crypto : CryptoConfig → CryptoConfig
default_crypto c = record c { type = text_or none_text c.type }

-- The values that no file can change.
pub set_fixed : Config → Config
set_fixed c = record c {
  upstream_queue_size = pos 8192;
  upstream_batch_max_packets = pos 256;
  upstream_batch_max_bytes = pos (4 * 1024 * 1024);
  upstream_batch_max_delay_ms = pos 0;
  upstream_stripe_enabled = false;
  upstream_reorder_window = pos 128;
  upstream_reorder_hold_ms = pos 3;
  upstream_lane_count = pos 4;
  downstream_lane_count = pos 4;
  downstream_batch_max_packets = pos 128;
  downstream_batch_max_bytes = pos (512 * 1024);
  downstream_batch_max_delay_ms = pos 1;
  heartbeat_interval_ms = pos 1000;
}

pub set_defaults : Config → Config
unfolding set_fixed default_crypto
set_defaults c0 =
    let c = set_fixed c0 in
    let interval = positive_or (pos 1) c.reconnect_interval in
    record c {
      reconnect_interval = interval;
      reconnect_max_interval = at_least interval (positive_or (pos 30) c.reconnect_max_interval);
      reconnect_jitter_ms = at_least (pos 0) c.reconnect_jitter_ms;
      session_timeout = positive_or (pos 300) c.session_timeout;
      buffer_size = positive_or (pos 65536) c.buffer_size;
      max_packet_size = positive_or (pos 65536) c.max_packet_size;
      log_level = text_or info_text c.log_level;
      upstream_crypto = default_crypto c.upstream_crypto;
      downstream_crypto = default_crypto c.downstream_crypto;
    }

pub is_client : Config → Bool
is_client c = text_eq c.mode client_text

pub is_server : Config → Bool
is_server c = text_eq c.mode server_text
