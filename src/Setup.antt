-- ===== src/Setup.antt =====
-- internal/client/client.go and internal/server/server.go, New: the two sides as a configuration makes
-- them.
pub mod Fits
mod Tests
use t2d.Base.{ℕ, zero, suc, ◌+◌, List, [], ◌∷◌, replicate, Bool, false, none, Result, ok, err}
use t2d.Base.Int.{ℤ, pos_part, wrap64, scale, add_ℕ}
use t2d.Config.{CryptoConfig, Config}
use t2d.Protocol.Packet.{header_size}
use t2d.Crypto
use t2d.Crypto.{Cipher, CryptoError, new_cipher, overhead}
use t2d.Crypto.Primitives.{Library}
use t2d.Stats
use t2d.Client.Backoff.{millisecond}
use t2d.Client.Ring.{UpstreamRing, new_upstream_ring}
use t2d.Client.LaneControl.{DownstreamLane}
use t2d.Client.Sessions.{Sessions, new_sessions}
use t2d.Server.Lanes.{Server, DownstreamWriter}
use t2d.Server.Sessions.{SessionTable, new_table}
use t2d.Server.Writer.{Limits, new_limits, max_int}

-- The fields of Client that New sets, a session's maps and channels among them; a channel `reconnect`
-- is empty at first.
pub record Client : Type 0 where
  pub max_upstream_packet : ℕ
  pub rings : List UpstreamRing
  pub downstream_lanes : List DownstreamLane
  pub sessions : Sessions
  pub upstream_batch_max_packets : ℤ
  pub upstream_batch_max_bytes : ℤ
  pub upstream_batch_max_delay : ℤ
  pub upstream_stripe_enabled : Bool
  pub downstream_heartbeat : ℤ
  pub upstream_zero_copy : Bool
  pub upstream_cipher : Cipher
  pub downstream_cipher : Cipher

-- The fields of Server that New sets; `lanes` are its writers and the lanes of the sessions.
pub record Service : Type 0 where
  pub max_upstream_payload : ℕ
  pub lanes : Server
  pub limits : Limits
  pub table : SessionTable
  pub upstream_stripe_enabled : Bool
  pub upstream_reorder_window : ℤ
  pub upstream_reorder_hold : ℤ
  pub upstream_cipher : Cipher
  pub downstream_cipher : Cipher

-- `&crypto.Config{…}`
abbrev pub crypto_config : CryptoConfig → Crypto.Config
crypto_config c = record { type = c.type; password = c.password }

abbrev pub duration : ℤ → ℤ
duration ms = wrap64 (scale millisecond ms)

-- `for i := 0; i < downLaneCount; i++`, for so many lanes from a number on.
pub new_downstream_lanes : ℕ → ℕ → List DownstreamLane
new_downstream_lanes i zero = []
new_downstream_lanes i (suc n) =
    record { id = i; conn = none; reconnect = false } ∷ new_downstream_lanes (i + 1) n

-- Both ciphers are made, the upstream one first.
pub both_ciphers {ℓ} :
    {A : Type ℓ}
    → Result CryptoError Cipher
    → Result CryptoError Cipher
    → (Cipher → Cipher → A)
    → Result CryptoError A
both_ciphers (err e) down make = err e
both_ciphers (ok up) (err e) make = err e
both_ciphers (ok up) (ok down) make = ok (make up down)

pub with_ciphers {ℓ} :
    {A : Type ℓ} → Library → Config → (Cipher → Cipher → A) → Result CryptoError A
unfolding both_ciphers
with_ciphers lib cfg make =
    both_ciphers (new_cipher lib (crypto_config cfg.upstream_crypto))
      (new_cipher lib (crypto_config cfg.downstream_crypto)) make

-- `cfg.MaxPacketSize`, which setDefaults leaves positive.
abbrev pub max_packet_size : Config → ℕ
max_packet_size cfg = pos_part cfg.max_packet_size

pub make_client : Config → ℕ → Cipher → Cipher → Client
unfolding new_downstream_lanes
make_client cfg now up down =
    let max_packet = header_size + max_packet_size cfg + overhead up in
    let lanes = max_int 1 cfg.downstream_lane_count in
    record {
      max_upstream_packet = max_packet;
      rings =
          replicate (max_int 1 cfg.upstream_lane_count)
            (new_upstream_ring cfg.upstream_queue_size max_packet);
      downstream_lanes = new_downstream_lanes 0 lanes;
      sessions = new_sessions (replicate lanes []) (Stats.new now);
      upstream_batch_max_packets = cfg.upstream_batch_max_packets;
      upstream_batch_max_bytes = cfg.upstream_batch_max_bytes;
      upstream_batch_max_delay = duration cfg.upstream_batch_max_delay_ms;
      upstream_stripe_enabled = cfg.upstream_stripe_enabled;
      downstream_heartbeat = duration cfg.heartbeat_interval_ms;
      upstream_zero_copy = false;
      upstream_cipher = up;
      downstream_cipher = down;
    }

-- `New` of the client, at a time.
pub new_client : Library → Config → ℕ → Result CryptoError Client
unfolding with_ciphers make_client
new_client lib cfg now = with_ciphers lib cfg (make_client cfg now)

pub make_service : Config → ℕ → Cipher → Cipher → Service
make_service cfg now up down =
    let writer : DownstreamWriter = record { ch = []; conn = none } in
    record {
      max_upstream_payload = max_packet_size cfg + overhead up;
      lanes = record {
        down_writers = replicate (max_int 1 cfg.downstream_lane_count) writer;
        session_lane_map = [];
        sessions = [];
        contexts = [];
        stats = Stats.new now;
      };
      limits =
          new_limits cfg.downstream_batch_max_packets cfg.downstream_batch_max_bytes
            (duration cfg.downstream_batch_max_delay_ms);
      table = new_table (Stats.new now);
      upstream_stripe_enabled = cfg.upstream_stripe_enabled;
      upstream_reorder_window = cfg.upstream_reorder_window;
      upstream_reorder_hold = duration cfg.upstream_reorder_hold_ms;
      upstream_cipher = up;
      downstream_cipher = down;
    }

-- `New` of the server, at a time.
pub new_server : Library → Config → ℕ → Result CryptoError Service
unfolding with_ciphers make_service
new_server lib cfg now = with_ciphers lib cfg (make_service cfg now)

-- The limit that handleDownstream gives its StreamBuffer.
pub max_downstream_payload : Config → Client → ℕ
max_downstream_payload cfg c = max_packet_size cfg + overhead c.downstream_cipher + 2048
