-- ===== src/Crypto/Inverse.antt =====
-- internal/crypto: Encrypt against Decrypt and Overhead.
use t2d.Base.{
  ℕ, ◌+◌, ◌≡◌, refl, List, ◌++◌, false, arith, length, ok, IsBytes, length-append,
  take-append_length, drop-append_length, ltb, ge→ltb, sym,
}
use t2d.Crypto.Primitives.{Aead, IsAead}
use t2d.Crypto.{
  Cipher, none_cipher, xor_cipher, aes_gcm_cipher, chacha20_poly1305_cipher, encrypt, decrypt,
  overhead, open_with_nonce, xor_bytes,
}
use t2d.Crypto.Xor.{xor_bytes-xor_bytes, length-xor_bytes}

-- The AEAD of a cipher, where it has one, does what its documentation promises.
abbrev pub IsSound : Cipher → Type 0
IsSound none_cipher = Unit
IsSound xor_cipher = Unit
IsSound (aes_gcm_cipher a) = IsAead a
IsSound (chacha20_poly1305_cipher a x) = IsAead a

abbrev pub nonce_size : Cipher → ℕ
nonce_size none_cipher = 0
nonce_size xor_cipher = 0
nonce_size (aes_gcm_cipher a) = a.nonce_size
nonce_size (chacha20_poly1305_cipher a x) = a.nonce_size

open-seal :
    (a : Aead) (nonce plaintext : List ℕ)
    → IsAead a
    → length nonce ≡ a.nonce_size
    → open_with_nonce a (nonce ++ a.seal nonce plaintext) ≡ ok plaintext
unfolding open_with_nonce
open-seal a nonce plaintext law size =
    let body = a.seal nonce plaintext in
    let enough : ltb (length (nonce ++ body)) a.nonce_size ≡ false =
      ge→ltb _ _ (omega (arith, length-append nonce body)) in
    rw
      (
        enough,
        take-append_length nonce body a.nonce_size (sym size),
        drop-append_length nonce body a.nonce_size (sym size),
        law.open_-seal nonce plaintext size,
      )
      refl

-- For a cipher whose AEAD, if it has one, keeps its promises, a nonce of its size and a plaintext of
-- bytes: Encrypt succeeds, Decrypt gives the plaintext back, and the ciphertext is longer by exactly
-- what Overhead says.
pub decrypt-encrypt :
    (c : Cipher) (nonce plaintext : List ℕ)
    → IsSound c
    → length nonce ≡ nonce_size c
    → IsBytes plaintext
    → (ciphertext : List ℕ) × (encrypt c (ok nonce) plaintext ≡ ok ciphertext)
      × (decrypt c ciphertext ≡ ok plaintext)
      × (length ciphertext ≡ length plaintext + overhead c)
unfolding encrypt decrypt overhead
decrypt-encrypt none_cipher nonce plaintext s n b = (plaintext, refl, refl, omega arith)
decrypt-encrypt xor_cipher nonce plaintext s n b = (
  xor_bytes plaintext,
  refl,
  rw (xor_bytes-xor_bytes plaintext b) refl,
  omega (arith, length-xor_bytes plaintext),
)
decrypt-encrypt (aes_gcm_cipher a) nonce plaintext s n b = (
  nonce ++ a.seal nonce plaintext,
  refl,
  open-seal a nonce plaintext s n,
  omega (arith, length-append nonce (a.seal nonce plaintext), s.length-seal nonce plaintext),
)
decrypt-encrypt (chacha20_poly1305_cipher a x) nonce plaintext s n b = (
  nonce ++ a.seal nonce plaintext,
  refl,
  open-seal a nonce plaintext s n,
  omega (arith, length-append nonce (a.seal nonce plaintext), s.length-seal nonce plaintext),
)
