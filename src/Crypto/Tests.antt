-- ===== src/Crypto/Tests.antt =====
-- Stand-ins for the third-party parts, with which the ciphers run.
use t2d.Base.{
  ℕ, ◌+◌, ◌≡◌, refl, List, [], ◌∷◌, true, length, drop, replicate, ok, arith, length-replicate,
}
use t2d.Base.Texts.{codes}
use t2d.Crypto.Primitives.{Aead, IsAead, Library}
use t2d.Crypto.{Config, aes_gcm_cipher, encrypt, decrypt, overhead, new_cipher}
use t2d.Crypto.Inverse.{decrypt-encrypt}
use t2d.Crypto.Choice.{IsLibrary, is_ok, new_cipher-is_ok}

-- A tag of two zeros behind the text.
abbrev plain_aead : Aead
plain_aead = record {
  nonce_size = 3;
  tag_size = 2;
  seal = λ nonce plaintext. 0 ∷ 0 ∷ plaintext;
  open_ = λ nonce ciphertext. ok (drop 2 ciphertext);
}

plain_aead-IsAead : IsAead plain_aead
plain_aead-IsAead = record {
  open_-seal = λ nonce plaintext size. refl;
  length-seal = λ nonce plaintext. omega arith;
}

decrypt-encrypt_example :
    (ciphertext : List ℕ) × (encrypt (aes_gcm_cipher plain_aead) (ok (7 ∷ 8 ∷ 9 ∷ [])) (1 ∷ 2 ∷ [])
      ≡ ok ciphertext)
    × (decrypt (aes_gcm_cipher plain_aead) ciphertext ≡ ok (1 ∷ 2 ∷ []))
    × (length ciphertext ≡ 2 + overhead (aes_gcm_cipher plain_aead))
decrypt-encrypt_example =
    decrypt-encrypt (aes_gcm_cipher plain_aead) (7 ∷ 8 ∷ 9 ∷ []) (1 ∷ 2 ∷ []) plain_aead-IsAead refl
      (omega arith)

abbrev any_key : Library
any_key = record {
  sum256 = λ text. replicate 32 0;
  aes_gcm = λ key. ok plain_aead;
  chacha20_poly1305 = λ key. ok plain_aead;
  xchacha20_poly1305 = λ key. ok plain_aead;
}

any_key-IsLibrary : IsLibrary any_key
any_key-IsLibrary = record {
  length-sum256 = λ text. length-replicate {A = ℕ} 32 0;
  aes_keys = λ key size. (plain_aead, refl);
  chacha20_keys = λ key size. (plain_aead, refl);
  xchacha20_keys = λ key size. (plain_aead, refl);
}

abbrev chacha_config : Config
chacha_config = record { type = codes "chacha20-poly1305"; password = 0x70 ∷ [] }

new_cipher-is_ok_example : is_ok (new_cipher any_key chacha_config) ≡ true
new_cipher-is_ok_example = new_cipher-is_ok any_key any_key-IsLibrary chacha_config
