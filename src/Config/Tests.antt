-- ===== src/Config/Tests.antt =====
-- A file that sets the mode, a reconnect interval above the default maximum and a negative jitter.
use t2d.Base.{◌≡◌, refl, [], true}
use t2d.Base.Int.{pos, negsuc}
use t2d.Config.{Config, client_text, set_defaults, set_fixed}
use t2d.Config.Defaults.{IsUsable, set_defaults-IsUsable}

abbrev loaded : Config
loaded = record {
  mode = client_text;
  listen_addr = [];
  server_upstream = [];
  server_downstream = [];
  upstream_port = [];
  downstream_port = [];
  backend_addr = [];
  reconnect_interval = pos 60;
  reconnect_max_interval = pos 0;
  reconnect_jitter_ms = negsuc 4;
  session_timeout = pos 0;
  buffer_size = pos 0;
  max_packet_size = pos 0;
  upstream_queue_size = pos 0;
  upstream_batch_max_packets = pos 0;
  upstream_batch_max_bytes = pos 0;
  upstream_batch_max_delay_ms = pos 0;
  upstream_stripe_enabled = true;
  upstream_reorder_window = pos 0;
  upstream_reorder_hold_ms = pos 0;
  upstream_lane_count = pos 0;
  downstream_lane_count = pos 0;
  downstream_batch_max_packets = pos 0;
  downstream_batch_max_bytes = pos 0;
  downstream_batch_max_delay_ms = pos 0;
  heartbeat_interval_ms = pos 0;
  log_level = [];
  upstream_crypto = record { type = []; password = [] };
  downstream_crypto = record { type = []; password = [] };
}

set_defaults-IsUsable_example : IsUsable (set_defaults loaded)
set_defaults-IsUsable_example = set_defaults-IsUsable loaded

interval_kept : (set_defaults loaded).reconnect_max_interval ≡ pos 60
unfolding set_defaults set_fixed
interval_kept = refl
