-- ===== src/Setup/Fits.antt =====
-- internal/client/client.go and internal/server/server.go, New: what one side builds the other takes.
use t2d.Base.{
  ℕ, zero, suc, ◌+◌, ◌≤◌, ◌≡◌, refl, sym, ap, ap₂, subst, ◌∙◌, List, replicate, length,
  length-replicate, arith, All, Result, ok, err, IsBytes,
}
use t2d.Base.Int.{ℤ}
use t2d.Config.{Config}
use t2d.Protocol.Packet.{header_size}
use t2d.Crypto.{Cipher, CryptoError, encrypt, decrypt, overhead}
use t2d.Crypto.Inverse.{IsSound, nonce_size, decrypt-encrypt}
use t2d.Crypto.Primitives.{Library}
use t2d.Client.Ring.{UpstreamRing, new_upstream_ring}
use t2d.Setup.{
  Client, Service, both_ciphers, with_ciphers, make_client, make_service, new_client, new_server,
  max_packet_size, max_downstream_payload,
}

-- The two results are two ciphers, of which `a` is made.
abbrev Makes :
    {A : Type 0}
    → Result CryptoError Cipher
    → Result CryptoError Cipher
    → (Cipher → Cipher → A)
    → A
    → Type 0
Makes r q make a =
    (up : Cipher) × (down : Cipher) × (r ≡ ok up) × (q ≡ ok down) × (make up down ≡ a)

both_ciphers-Makes :
    {A : Type 0} (r q : Result CryptoError Cipher) (make : Cipher → Cipher → A) {a : A}
    → both_ciphers r q make ≡ ok a
    → Makes r q make a
unfolding both_ciphers
both_ciphers-Makes (err x) q make e = absurd (cc)
both_ciphers-Makes (ok up) (err x) make e = absurd (cc)
both_ciphers-Makes (ok up) (ok down) make e = (up, down, refl, refl, cc)

-- Each slot's buffer has so many bytes.
abbrev pub HasBuffers : ℕ → UpstreamRing → Type 0
HasBuffers n r = All (λ p. length p.buf ≡ n) r.slots

All-replicate : {A : Type 0} (P : A → Type 0) (n : ℕ) (a : A) → P a → All P (replicate n a)
All-replicate P zero a p = tt
All-replicate P (suc n) a p = (p, All-replicate P n a p)

new_upstream_ring-HasBuffers : (capacity : ℤ) (n : ℕ) → HasBuffers n (new_upstream_ring capacity n)
unfolding new_upstream_ring
new_upstream_ring-HasBuffers capacity n =
    All-replicate (λ p. length p.buf ≡ n) _ (record { buf = replicate n 0; data_len = 0 })
      (length-replicate n 0)

-- The two sides have the same ciphers, and limits that go together.
pub record Agrees (cfg : Config) (c : Client) (s : Service) : Type 0 where
  pub upstream : s.upstream_cipher ≡ c.upstream_cipher
  pub downstream : s.downstream_cipher ≡ c.downstream_cipher
  pub payload : s.max_upstream_payload ≡ max_packet_size cfg + overhead c.upstream_cipher
  pub packet : c.max_upstream_packet ≡ header_size + s.max_upstream_payload
  pub buffers : All (HasBuffers c.max_upstream_packet) c.rings

make-Agrees :
    (cfg : Config) (now later : ℕ) (up down : Cipher)
    → Agrees cfg (make_client cfg now up down) (make_service cfg later up down)
unfolding make_client make_service
make-Agrees cfg now later up down = record {
  upstream = refl;
  downstream = refl;
  payload = refl;
  packet = omega arith;
  buffers = All-replicate (HasBuffers (header_size + max_packet_size cfg + overhead up)) _ _ (
      new_upstream_ring-HasBuffers cfg.upstream_queue_size
        (header_size + max_packet_size cfg + overhead up));
}

-- What is sealed with one cipher is opened with the other, within the limit.
abbrev pub Crosses : Cipher → Cipher → ℕ → List ℕ → List ℕ → Type 0
Crosses sender receiver limit nonce bytes =
    (body : List ℕ) × (encrypt sender (ok nonce) bytes ≡ ok body)
    × (decrypt receiver body ≡ ok bytes)
    × (length body ≤ limit)

Crosses-same :
    (sender receiver : Cipher) (limit : ℕ) (nonce bytes : List ℕ)
    → receiver ≡ sender
    → IsSound sender
    → length nonce ≡ nonce_size sender
    → IsBytes bytes
    → length bytes + overhead sender ≤ limit
    → Crosses sender receiver limit nonce bytes
Crosses-same sender receiver limit nonce bytes same sound size small fits =
    let (body, sealed, opened, long) = decrypt-encrypt sender nonce bytes sound size small in
    (body, sealed, ap (λ c. decrypt c body) same ∙ opened, omega (arith, long, fits))

module _ (lib : Library) (cfg : Config) (now later : ℕ) {c : Client} {s : Service}
    (made : new_client lib cfg now ≡ ok c) (served : new_server lib cfg later ≡ ok s) where
  new-Agrees : Agrees cfg c s
  unfolding new_client new_server with_ciphers
  new-Agrees =
      let (up, down, a, b, client) = both_ciphers-Makes _ _ (make_client cfg now) made in
      let (up', down', a', b', server) = both_ciphers-Makes _ _ (make_service cfg later) served in
      let same_up : up' ≡ up = cc in
      let same_down : down' ≡ down = cc in
      let service : make_service cfg later up down ≡ s =
        ap₂ (make_service cfg later) (sym same_up) (sym same_down) ∙ server in
      subst (Agrees cfg c) service (
        subst (λ x. Agrees cfg x (make_service cfg later up down)) client
          (make-Agrees cfg now later up down))

  new-upstream :
      (nonce bytes : List ℕ)
      → IsSound c.upstream_cipher
      → length nonce ≡ nonce_size c.upstream_cipher
      → IsBytes bytes
      → length bytes ≤ max_packet_size cfg
      → Crosses c.upstream_cipher s.upstream_cipher s.max_upstream_payload nonce bytes
        × All (HasBuffers (header_size + s.max_upstream_payload)) c.rings
  new-upstream nonce bytes sound size small short =
      let v = new-Agrees in
      (
        Crosses-same c.upstream_cipher s.upstream_cipher s.max_upstream_payload nonce bytes
            v.upstream sound size small (omega (arith, v.payload, short)),
        subst (λ n. All (HasBuffers n) c.rings) v.packet v.buffers,
      )

  new-downstream :
      (nonce bytes : List ℕ)
      → IsSound s.downstream_cipher
      → length nonce ≡ nonce_size s.downstream_cipher
      → IsBytes bytes
      → length bytes ≤ max_packet_size cfg
      → Crosses s.downstream_cipher c.downstream_cipher (max_downstream_payload cfg c) nonce bytes
  unfolding max_downstream_payload
  new-downstream nonce bytes sound size small short =
      let v = new-Agrees in
      Crosses-same s.downstream_cipher c.downstream_cipher (max_downstream_payload cfg c) nonce
        bytes (sym v.downstream) sound size small (omega (arith, ap overhead v.downstream, short))

  -- Where New of the client and of the server succeed with the same configuration, whose ciphers keep
  -- their promises: for nonces of their sizes and bytes that are no longer than MaxPacketSize, as a
  -- datagram and as a reply, the sender's encryption succeeds, the receiver's cipher gives the bytes
  -- back, and the receiver's limit lets the ciphertext pass; and a packet of the largest ciphertext that
  -- the server lets pass is just as long as every buffer of the client's rings.
  pub new-Crosses :
      (up_nonce down_nonce bytes : List ℕ)
      → IsSound c.upstream_cipher
      → IsSound s.downstream_cipher
      → length up_nonce ≡ nonce_size c.upstream_cipher
      → length down_nonce ≡ nonce_size s.downstream_cipher
      → IsBytes bytes
      → length bytes ≤ max_packet_size cfg
      → Crosses c.upstream_cipher s.upstream_cipher s.max_upstream_payload up_nonce bytes
        × Crosses s.downstream_cipher c.downstream_cipher
            (max_downstream_payload cfg c)
            down_nonce
            bytes
        × All (HasBuffers (header_size + s.max_upstream_payload)) c.rings
  new-Crosses up_nonce down_nonce bytes sound_up sound_down size_up size_down small short =
      let (there, buffers) = new-upstream up_nonce bytes sound_up size_up small short in
      (there, new-downstream down_nonce bytes sound_down size_down small short, buffers)
