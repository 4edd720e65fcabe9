-- ===== src/Setup/Tests.antt =====
-- A configuration with packets of up to four bytes, and ciphers that a stand-in makes.
use t2d.Base.{◌+◌, ◌≡◌, refl, [], ◌∷◌, true, drop, replicate, ok, arith, All}
use t2d.Base.Int.{pos}
use t2d.Base.Texts.{codes}
use t2d.Config.{Config}
use t2d.Protocol.Packet.{header_size}
use t2d.Crypto.Primitives.{Aead, IsAead, Library}
use t2d.Crypto.{aes_gcm_cipher, xor_cipher, new_cipher, new_aes_gcm_cipher, wrap_aead}
use t2d.Setup.{
  Client, Service, both_ciphers, with_ciphers, make_client, make_service, new_client, new_server,
  max_downstream_payload,
}
use t2d.Setup.Fits.{Crosses, HasBuffers, new-Crosses}

abbrev plain_aead : Aead
plain_aead = record {
  nonce_size = 3;
  tag_size = 2;
  seal = λ nonce plaintext. 0 ∷ 0 ∷ plaintext;
  open_ = λ nonce ciphertext. ok (drop 2 ciphertext);
}

plain_aead-IsAead : IsAead plain_aead
plain_aead-IsAead = record {
  open_-seal = λ nonce plaintext size. refl;
  length-seal = λ nonce plaintext. omega arith;
}

abbrev any_key : Library
any_key = record {
  sum256 = λ text. replicate 32 0;
  aes_gcm = λ key. ok plain_aead;
  chacha20_poly1305 = λ key. ok plain_aead;
  xchacha20_poly1305 = λ key. ok plain_aead;
}

abbrev four_bytes : Config
four_bytes = record {
  mode = [];
  listen_addr = [];
  server_upstream = [];
  server_downstream = [];
  upstream_port = [];
  downstream_port = [];
  backend_addr = [];
  reconnect_interval = pos 0;
  reconnect_max_interval = pos 0;
  reconnect_jitter_ms = pos 0;
  session_timeout = pos 0;
  buffer_size = pos 0;
  max_packet_size = pos 4;
  upstream_queue_size = pos 2;
  upstream_batch_max_packets = pos 0;
  upstream_batch_max_bytes = pos 0;
  upstream_batch_max_delay_ms = pos 0;
  upstream_stripe_enabled = true;
  upstream_reorder_window = pos 0;
  upstream_reorder_hold_ms = pos 0;
  upstream_lane_count = pos 2;
  downstream_lane_count = pos 2;
  downstream_batch_max_packets = pos 0;
  downstream_batch_max_bytes = pos 0;
  downstream_batch_max_delay_ms = pos 0;
  heartbeat_interval_ms = pos 0;
  log_level = [];
  upstream_crypto = record { type = codes "aes-128-gcm"; password = 0x70 ∷ [] };
  downstream_crypto = record { type = codes "xor"; password = [] };
}

abbrev client : Client
client = make_client four_bytes 0 (aes_gcm_cipher plain_aead) xor_cipher

abbrev server : Service
server = make_service four_bytes 0 (aes_gcm_cipher plain_aead) xor_cipher

client_made : new_client any_key four_bytes 0 ≡ ok client
unfolding new_client with_ciphers both_ciphers new_cipher new_aes_gcm_cipher wrap_aead
client_made = refl

server_made : new_server any_key four_bytes 0 ≡ ok server
unfolding new_server with_ciphers both_ciphers new_cipher new_aes_gcm_cipher wrap_aead
server_made = refl

new-Crosses_example :
    Crosses client.upstream_cipher server.upstream_cipher server.max_upstream_payload
      (7 ∷ 8 ∷ 9 ∷ [])
      (1 ∷ 2 ∷ [])
    × Crosses server.downstream_cipher client.downstream_cipher
        (max_downstream_payload four_bytes client)
        []
        (1 ∷ 2 ∷ [])
    × All (HasBuffers (header_size + server.max_upstream_payload)) client.rings
unfolding make_client make_service
new-Crosses_example =
    new-Crosses any_key four_bytes 0 0 client_made server_made (7 ∷ 8 ∷ 9 ∷ []) [] (1 ∷ 2 ∷ [])
      plain_aead-IsAead tt refl refl (omega arith) (omega arith)
