-- ===== src/Encryption/Tests.antt =====
-- A toy cipher that keeps the value behind a nonce of two bytes, and the theorem of the encryption
-- on it.
use loyalty_system.Prelude.{ℕ, zero, suc, length, subst, ◌≡◌, refl, ap, [], ◌∷◌, Text}
use loyalty_system.Errors.{ok, done, sentinel, invalid_value, wrap, err}
use loyalty_system.Encryption.{Aead, CryptoLib, CryptoLaws, Encryptor, encrypt, decrypt}

abbrev clear : Aead
clear = record {
  nonce_size = 2;
  seal = λ nonce value. value;
  open_sealed = λ nonce ciphertext. done ciphertext;
}

abbrev filler : ℕ → Text
filler zero = []
filler (suc n) = 7 ∷ filler n

abbrev clear_lib : CryptoLib Unit
clear_lib = record {
  Block = Unit;
  new_cipher = λ secret. done tt;
  new_gcm = λ block. done clear;
  read_random = λ n e. (done (filler n), e);
}

done_gcm : {a b : Aead} → done a ≡ done b → a ≡ b
done_gcm e = cc

done_text : {a b : Text} → done a ≡ done b → a ≡ b
done_text e = cc

length-filler : (n : ℕ) → length (filler n) ≡ n
length-filler zero = refl
length-filler (suc n) = ap suc (length-filler n)

clear_lib-CryptoLaws : CryptoLaws clear_lib
clear_lib-CryptoLaws = record {
  opens = λ block gcm nonce value made full.
      subst (λ (g : Aead). g.open_sealed nonce (g.seal nonce value) ≡ done value) (done_gcm made)
        refl;
  fills = λ n e bytes_read drawn. rw (← done_text drawn) (length-filler n);
}

abbrev key : Encryptor
key = record { secret = b'k' ∷ [] }

sealed_pair : (encrypt clear_lib key (b'a' ∷ []) tt).0 ≡ ok (7 ∷ 7 ∷ b'a' ∷ [])
unfolding encrypt
sealed_pair = refl

too_short : decrypt clear_lib key (7 ∷ []) ≡ err (wrap "decrypt" (sentinel invalid_value))
unfolding decrypt
too_short = refl
