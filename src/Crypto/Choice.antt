-- ===== src/Crypto/Choice.antt =====
-- internal/crypto/crypto.go, NewCipher: which configurations it accepts.
use t2d.Base.{
  ℕ, ◌≡◌, ◌≤◌, refl, ◌⊎◌, inl, inr, List, [], ◌∷◌, Bool, true, false, ◌||◌, ◌&&◌, not, arith,
  length, Result, ok, err, if◌then◌else◌, length-take,
}
use t2d.Base.Texts.{text_eq}
use t2d.Crypto.Primitives.{Library, Aead}
use t2d.Crypto.{
  Config, Cipher, CryptoError, is_empty, derive_key, new_aes_gcm_cipher,
  new_chacha20_poly1305_cipher, new_cipher, cipher_none, cipher_xor, cipher_aes_256_gcm,
  cipher_aes_128_gcm, cipher_chacha20_poly1305, cipher_xchacha20_poly1305,
}

-- What the packages document: a SHA-256 sum has 32 bytes, AES takes keys of 16 and of 32 bytes, and
-- ChaCha20-Poly1305 keys of 32.
pub record IsLibrary (lib : Library) : Type 0 where
  pub length-sum256 : (text : List ℕ) → length (lib.sum256 text) ≡ 32
  pub aes_keys :
      (key : List ℕ) → (length key ≡ 16) ⊎ (length key ≡ 32) → (a : Aead) × (lib.aes_gcm key ≡ ok a)
  pub chacha20_keys :
      (key : List ℕ) → length key ≡ 32 → (a : Aead) × (lib.chacha20_poly1305 key ≡ ok a)
  pub xchacha20_keys :
      (key : List ℕ) → length key ≡ 32 → (a : Aead) × (lib.xchacha20_poly1305 key ≡ ok a)

abbrev pub is_ok : {A : Type 0} → Result CryptoError A → Bool
is_ok (ok a) = true
is_ok (err e) = false

-- The types that need no password, and those that need one.
abbrev pub is_plain : List ℕ → Bool
is_plain t = text_eq t cipher_none || text_eq t cipher_xor

abbrev pub is_keyed : List ℕ → Bool
is_keyed t =
    text_eq t cipher_aes_256_gcm
    || (text_eq t cipher_aes_128_gcm
        || (text_eq t cipher_chacha20_poly1305 || text_eq t cipher_xchacha20_poly1305))

-- A chain of tests, two of them for what always succeeds and four for what succeeds together.
chain :
    (b1 b2 b3 b4 b5 b6 p : Bool) (c1 c2 : Cipher) (m3 m4 m5 m6 : Result CryptoError Cipher)
    (e : CryptoError)
    → is_ok m3 ≡ p
    → is_ok m4 ≡ p
    → is_ok m5 ≡ p
    → is_ok m6 ≡ p
    → is_ok (
        if b1
        then ok c1
        else if b2
        then ok c2
        else if b3
        then m3
        else if b4
        then m4
        else if b5
        then m5
        else if b6
        then m6
        else err e)
      ≡ ((b1 || b2) || ((b3 || (b4 || (b5 || b6))) && p))
chain true b2 b3 b4 b5 b6 p c1 c2 m3 m4 m5 m6 e h3 h4 h5 h6 = refl
chain false true b3 b4 b5 b6 p c1 c2 m3 m4 m5 m6 e h3 h4 h5 h6 = refl
chain false false true b4 b5 b6 p c1 c2 m3 m4 m5 m6 e h3 h4 h5 h6 = h3
chain false false false true b5 b6 p c1 c2 m3 m4 m5 m6 e h3 h4 h5 h6 = h4
chain false false false false true b6 p c1 c2 m3 m4 m5 m6 e h3 h4 h5 h6 = h5
chain false false false false false true p c1 c2 m3 m4 m5 m6 e h3 h4 h5 h6 = h6
chain false false false false false false p c1 c2 m3 m4 m5 m6 e h3 h4 h5 h6 = refl

module _ (lib : Library) (law : IsLibrary lib) where
  length-derive_key : (password : List ℕ) (k : ℕ) → k ≤ 32 → length (derive_key lib password k) ≡ k
  unfolding derive_key
  length-derive_key password k h =
      ground (arith, length-take k (lib.sum256 password), law.length-sum256 password)

  aes-ok :
      (password : List ℕ) (k : ℕ)
      → (k ≡ 16) ⊎ (k ≡ 32)
      → is_ok (new_aes_gcm_cipher lib k password) ≡ true
  unfolding new_aes_gcm_cipher
  aes-ok password k size =
      let key = derive_key lib password k in
      let long : length key ≡ k = length-derive_key password k (ground arith) in
      let (a, made) = law.aes_keys key (ground arith) in ground (arith, made)

  chacha20-ok :
      (password : List ℕ) (x : Bool) → is_ok (new_chacha20_poly1305_cipher lib password x) ≡ true
  unfolding new_chacha20_poly1305_cipher
  chacha20-ok password true =
      let (a, made) =
        law.xchacha20_keys (derive_key lib password 32)
          (length-derive_key password 32 (omega arith)) in
      rw made refl
  chacha20-ok password false =
      let (a, made) =
        law.chacha20_keys (derive_key lib password 32)
          (length-derive_key password 32 (omega arith)) in
      rw made refl

  keyed :
      (password : List ℕ) (t : List ℕ) (made : Result CryptoError Cipher)
      → is_ok made ≡ true
      → is_ok (if is_empty password then err (CryptoError.password_required t) else made)
        ≡ not (is_empty password)
  keyed [] t made h = refl
  keyed (x ∷ xs) t made h = h

  -- With libraries that accept the key sizes they document, NewCipher succeeds exactly for the types
  -- "none" and "xor", and for the four AEAD types if the password is not empty.
  pub new_cipher-is_ok :
      (config : Config)
      → is_ok (new_cipher lib config)
        ≡ (is_plain config.type || (is_keyed config.type && not (is_empty config.password)))
  unfolding new_cipher
  new_cipher-is_ok config =
      let password = config.password in
      chain (text_eq config.type cipher_none) (text_eq config.type cipher_xor)
        (text_eq config.type cipher_aes_256_gcm) (text_eq config.type cipher_aes_128_gcm)
        (text_eq config.type cipher_chacha20_poly1305)
        (text_eq config.type cipher_xchacha20_poly1305) (not (is_empty password)) _ _ _ _ _ _ _
        (keyed password config.type (new_aes_gcm_cipher lib 32 password)
          (aes-ok password 32 (inr refl)))
        (keyed password config.type (new_aes_gcm_cipher lib 16 password)
          (aes-ok password 16 (inl refl)))
        (keyed password config.type (new_chacha20_poly1305_cipher lib password false)
          (chacha20-ok password false))
        (keyed password config.type (new_chacha20_poly1305_cipher lib password true)
          (chacha20-ok password true))
