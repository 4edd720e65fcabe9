-- ===== src/Crypto.antt =====
-- internal/crypto: the ciphers of a lane. The AEAD constructions, SHA-256 and the random source are
-- third-party code and come in as parameters; a string is the list of its bytes.
pub mod Primitives
pub mod Xor
pub mod Inverse
pub mod Choice
mod Tests
use Prim.Native.Nat.{bit_xor}
use t2d.Base.{
  ℕ, ◌+◌, List, [], ◌∷◌, ◌++◌, map, Bool, true, false, ◌&&◌, not, Option, none, some, length, ltb,
  leb, ◌==◌, if◌then◌else◌, take, drop, Result, ok, err,
}
use t2d.Base.Texts.{codes, text_eq}
use t2d.Crypto.Primitives.{Aead, Library}

abbrev pub cipher_none : List ℕ
cipher_none = codes "none"

abbrev pub cipher_xor : List ℕ
cipher_xor = codes "xor"

abbrev pub cipher_aes_256_gcm : List ℕ
cipher_aes_256_gcm = codes "aes-256-gcm"

abbrev pub cipher_aes_128_gcm : List ℕ
cipher_aes_128_gcm = codes "aes-128-gcm"

abbrev pub cipher_chacha20_poly1305 : List ℕ
cipher_chacha20_poly1305 = codes "chacha20-poly1305"

abbrev pub cipher_xchacha20_poly1305 : List ℕ
cipher_xchacha20_poly1305 = codes "xchacha20-poly1305"

pub data CryptoError : Type 0 where
  password_required : List ℕ → CryptoError
  unsupported_cipher_type : List ℕ → CryptoError
  bad_key_size : CryptoError
  ciphertext_too_short : CryptoError
  -- what a library call or the random source returned
  failed : ℕ → CryptoError

-- The implementations of the interface `Cipher`.
pub data Cipher : Type 0 where
  none_cipher : Cipher
  xor_cipher : Cipher
  aes_gcm_cipher : Aead → Cipher
  chacha20_poly1305_cipher : Aead → Bool → Cipher

pub record Config : Type 0 where
  pub type : List ℕ
  pub password : List ℕ

abbrev pub is_empty : List ℕ → Bool
is_empty [] = true
is_empty (x ∷ xs) = false

-- `(*XORCipher).Encrypt`
unfoldable pub xor_bytes : List ℕ → List ℕ
xor_bytes = map (λ b. bit_xor b 0xaa)

-- `Encrypt` and `Decrypt` of the AEAD ciphers; the nonce is what `rand.Read` gave, or its error.
pub seal_with_nonce : Aead → Result ℕ (List ℕ) → List ℕ → Result CryptoError (List ℕ)
seal_with_nonce a (err e) plaintext = err (failed e)
seal_with_nonce a (ok nonce) plaintext = ok (nonce ++ a.seal nonce plaintext)

pub open_result : Result ℕ (List ℕ) → Result CryptoError (List ℕ)
open_result (ok plaintext) = ok plaintext
open_result (err e) = err (failed e)

pub open_with_nonce : Aead → List ℕ → Result CryptoError (List ℕ)
unfolding open_result
open_with_nonce a ciphertext =
    if ltb (length ciphertext) a.nonce_size
    then err ciphertext_too_short
    else open_result (a.open_ (take a.nonce_size ciphertext) (drop a.nonce_size ciphertext))

unfoldable pub encrypt : Cipher → Result ℕ (List ℕ) → List ℕ → Result CryptoError (List ℕ)
unfolding seal_with_nonce
encrypt none_cipher nonce plaintext = ok plaintext
encrypt xor_cipher nonce plaintext = ok (xor_bytes plaintext)
encrypt (aes_gcm_cipher a) nonce plaintext = seal_with_nonce a nonce plaintext
encrypt (chacha20_poly1305_cipher a x) nonce plaintext = seal_with_nonce a nonce plaintext

pub decrypt : Cipher → List ℕ → Result CryptoError (List ℕ)
unfolding open_with_nonce
decrypt none_cipher ciphertext = ok ciphertext
decrypt xor_cipher ciphertext = ok (xor_bytes ciphertext)
decrypt (aes_gcm_cipher a) ciphertext = open_with_nonce a ciphertext
decrypt (chacha20_poly1305_cipher a x) ciphertext = open_with_nonce a ciphertext

unfoldable pub overhead : Cipher → ℕ
overhead none_cipher = 0
overhead xor_cipher = 0
overhead (aes_gcm_cipher a) = a.nonce_size + a.tag_size
overhead (chacha20_poly1305_cipher a x) = a.nonce_size + a.tag_size

module _ (lib : Library) where
  -- `deriveKey`
  pub derive_key : List ℕ → ℕ → List ℕ
  derive_key password key_size =
      let hash = lib.sum256 password in if leb key_size 32 then take key_size hash else take 32 hash

  unfoldable pub wrap_aead : (Aead → Cipher) → Result ℕ Aead → Result CryptoError Cipher
  wrap_aead make (ok a) = ok (make a)
  wrap_aead make (err e) = err (failed e)

  unfoldable pub new_aes_gcm_cipher : ℕ → List ℕ → Result CryptoError Cipher
  unfolding derive_key wrap_aead
  new_aes_gcm_cipher key_size password =
      if not (key_size == 16) && not (key_size == 32)
      then err bad_key_size
      else wrap_aead aes_gcm_cipher (lib.aes_gcm (derive_key password key_size))

  pub new_chacha20_poly1305_cipher : List ℕ → Bool → Result CryptoError Cipher
  unfolding derive_key wrap_aead
  new_chacha20_poly1305_cipher password use_xchacha =
      let key = derive_key password 32 in
      wrap_aead (λ a. chacha20_poly1305_cipher a use_xchacha)
        (if use_xchacha then lib.xchacha20_poly1305 key else lib.chacha20_poly1305 key)

  -- `if config.Password == "" { return nil, errors.New(…) }`
  abbrev pub with_password : Config → Result CryptoError Cipher → Result CryptoError Cipher
  with_password config made =
      if is_empty config.password then err (password_required config.type) else made

  unfoldable pub new_cipher : Config → Result CryptoError Cipher
  unfolding new_aes_gcm_cipher new_chacha20_poly1305_cipher
  new_cipher config =
      if text_eq config.type cipher_none
      then ok none_cipher
      else if text_eq config.type cipher_xor
      then ok xor_cipher
      else if text_eq config.type cipher_aes_256_gcm
      then with_password config (new_aes_gcm_cipher 32 config.password)
      else if text_eq config.type cipher_aes_128_gcm
      then with_password config (new_aes_gcm_cipher 16 config.password)
      else if text_eq config.type cipher_chacha20_poly1305
      then with_password config (new_chacha20_poly1305_cipher config.password false)
      else if text_eq config.type cipher_xchacha20_poly1305
      then with_password config (new_chacha20_poly1305_cipher config.password true)
      else err (unsupported_cipher_type config.type)
