-- ===== src/Crypto/Primitives.antt =====
-- The third-party part of internal/crypto: cipher.AEAD, the packages that make one, SHA-256.
use t2d.Base.{ℕ, ◌+◌, ◌≡◌, List, length, Result, ok}

-- `cipher.AEAD` with a key. `seal` is the part that `Seal` appends to its destination.
pub record Aead : Type 0 where
  pub nonce_size : ℕ
  pub tag_size : ℕ
  pub seal : List ℕ → List ℕ → List ℕ
  pub open_ : List ℕ → List ℕ → Result ℕ (List ℕ)

-- What the documentation of `cipher.AEAD` promises: `Open` undoes `Seal` under the same nonce, and a
-- sealed text is longer than the plain one by the tag.
pub record IsAead (a : Aead) : Type 0 where
  pub open_-seal :
      (nonce plaintext : List ℕ)
      → length nonce ≡ a.nonce_size
      → a.open_ nonce (a.seal nonce plaintext) ≡ ok plaintext
  pub length-seal :
      (nonce plaintext : List ℕ) → length (a.seal nonce plaintext) ≡ length plaintext + a.tag_size

-- `aes.NewCipher` and `cipher.NewGCM`, the two constructors of chacha20poly1305, and `sha256.Sum256`.
pub record Library : Type 0 where
  pub sum256 : List ℕ → List ℕ
  pub aes_gcm : List ℕ → Result ℕ Aead
  pub chacha20_poly1305 : List ℕ → Result ℕ Aead
  pub xchacha20_poly1305 : List ℕ → Result ℕ Aead
