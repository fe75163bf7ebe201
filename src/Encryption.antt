-- ===== src/Encryption.antt =====
-- pkg/encryption/encryption.go: values sealed with AES-GCM. The packages crypto/aes, crypto/cipher and
-- crypto/rand are a parameter, `CryptoLib`.
mod Tests
use loyalty_system.Prelude.{
  ℕ, ◌≡◌, ◌∙◌, sym, ap, inl, inr, true, false, ◌++◌, Text, length, length-append, take, drop,
  take-append, drop-append, ltb, if◌then◌else◌, arith,
}
use loyalty_system.Errors.{
  sentinel, invalid_value, wrap, foreign, Result, ok, err, Reply, done, fault, Reply-cases, Exec,
}

-- A `cipher.AEAD`: `Seal` gives the text that it appends to its first argument.
pub record Aead : Type 0 where
  pub nonce_size : ℕ
  pub seal : (nonce value : Text) → Text
  pub open_sealed : (nonce ciphertext : Text) → Reply Text

-- `aes.NewCipher`, `cipher.NewGCM`, and `io.ReadFull` on `rand.Reader` for a number of bytes.
pub record CryptoLib (E : Type 0) : Type 1 where
  pub Block : Type 0
  pub new_cipher : (secret : Text) → Reply Block
  pub new_gcm : Block → Reply Aead
  pub read_random : ℕ → E → Reply Text × E

-- What is sealed can be opened with the same cipher and nonce, and `io.ReadFull` fills its buffer.
pub record CryptoLaws {E : Type 0} (lib : CryptoLib E) : Type 1 where
  pub opens :
      (block : lib.Block) (gcm : Aead) (nonce value : Text)
      → lib.new_gcm block ≡ done gcm
      → length nonce ≡ gcm.nonce_size
      → gcm.open_sealed nonce (gcm.seal nonce value) ≡ done value
  pub fills :
      (n : ℕ) (e : E) (bytes_read : Text)
      → (lib.read_random n e).0 ≡ done bytes_read
      → length bytes_read ≡ n

pub record Encryptor : Type 0 where
  pub secret : Text

module _ {E : Type 0} (lib : CryptoLib E) where
  abbrev pub gcm_of : Reply lib.Block → Reply Aead
  gcm_of (done block) = lib.new_gcm block
  gcm_of (fault n) = fault n

  abbrev pub sealed : Aead → Text → Reply Text → Result Text
  sealed gcm value (done nonce) = ok (nonce ++ gcm.seal nonce value)
  sealed gcm value (fault n) = err (wrap "encrypt" (foreign n))

  abbrev pub encrypt_with : Reply Aead → Text → Exec E Text
  encrypt_with (done gcm) value e =
      let (nonce, e') = lib.read_random gcm.nonce_size e in (sealed gcm value nonce, e')
  encrypt_with (fault n) value e = (err (wrap "encrypt" (foreign n)), e)

  unfoldable pub encrypt : Encryptor → Text → Exec E Text
  encrypt enc value = encrypt_with (gcm_of (lib.new_cipher enc.secret)) value

  abbrev pub opened : Reply Text → Result Text
  opened (done value) = ok value
  opened (fault n) = err (wrap "decrypt" (sentinel invalid_value))

  abbrev pub decrypt_with : Reply Aead → Text → Result Text
  decrypt_with (done gcm) encrypted_value =
      if ltb (length encrypted_value) gcm.nonce_size
      then err (wrap "decrypt" (sentinel invalid_value))
      else opened (
          gcm.open_sealed (take gcm.nonce_size encrypted_value)
            (drop gcm.nonce_size encrypted_value))
  decrypt_with (fault n) encrypted_value = err (wrap "decrypt" (foreign n))

  unfoldable pub decrypt : Encryptor → Text → Result Text
  decrypt enc encrypted_value = decrypt_with (gcm_of (lib.new_cipher enc.secret)) encrypted_value

ok_eq : {a b : Text} → ok a ≡ ok b → a ≡ b
ok_eq e = cc

module _ {E : Type 0} (lib : CryptoLib E) (laws : CryptoLaws lib) where
  decrypt-sealed :
      (block : lib.Block) (gcm : Aead) (value nonce : Text)
      → lib.new_gcm block ≡ done gcm
      → length nonce ≡ gcm.nonce_size
      → decrypt_with lib (done gcm) (nonce ++ gcm.seal nonce value) ≡ ok value
  decrypt-sealed block gcm value nonce made full =
      let long : ltb (length (nonce ++ gcm.seal nonce value)) gcm.nonce_size ≡ false =
        rw (length-append nonce (gcm.seal nonce value)) (ground (arith, full)) in
      rw (
        long,
        ← full,
        take-append nonce (gcm.seal nonce value),
        drop-append nonce (gcm.seal nonce value),
        laws.opens block gcm nonce value made full,
      )

  -- What `Encrypt` returns for a value, `Decrypt` turns back into that value, with the same secret.
  pub decrypt-encrypt :
      (enc : Encryptor) (value encrypted_value : Text) (e : E)
      → (encrypt lib enc value e).0 ≡ ok encrypted_value
      → decrypt lib enc encrypted_value ≡ ok value
  unfolding encrypt decrypt
  decrypt-encrypt enc value encrypted_value e success =
      elim (Reply-cases (lib.new_cipher enc.secret)) [
        | inr (n, no_cipher) ↦ absurd (cc (rw no_cipher at success))
        | inl (block, cipher) ↦ elim (Reply-cases (lib.new_gcm block)) [
          | inr (n, no_gcm) ↦ absurd (cc (rw (cipher, no_gcm) at success))
          | inl (gcm, made) ↦ elim (Reply-cases (lib.read_random gcm.nonce_size e).0) [
            | inr (n, no_random) ↦ absurd (cc (rw (cipher, made, no_random) at success))
            | inl (nonce, drawn) ↦
                rw (cipher, made, ← ok_eq (rw (cipher, made, drawn) at success))
                  (decrypt-sealed block gcm value nonce made
                    (laws.fills gcm.nonce_size e nonce drawn))
          ]
        ]
      ]
