-- ===== src/Auth/Toy.antt =====
-- A small library of tokens that meets the laws of `JwtLib`: a token is its expiry and its subject in
-- clear, and only HS256 signs.
use loyalty_system.Prelude.{ℕ, zero, suc, ◌≡◌, refl, Bool, true, false, some, [], ◌∷◌, Text, arith}
use loyalty_system.Prelude.Int.{ℤ, pos, negsuc, ◌≤ℤ◌, ◌<ℤ◌, ltb_ℤ, int_laws}
use loyalty_system.Errors.{Result, ok, err, Reply, done, fault}
use loyalty_system.Auth.{
  SigningMethod, hs256, other_method, RegisteredClaims, Token, JwtLib, JwtLaws,
}

abbrev date_code : ℤ → Text → Text
date_code (pos n) rest = 0 ∷ n ∷ rest
date_code (negsuc n) rest = 1 ∷ n ∷ rest

abbrev sign : SigningMethod → RegisteredClaims → Text → Reply Text
sign hs256 claims secret = done (date_code claims.expires_at claims.subject)
sign (other_method n) claims secret = fault n

abbrev token_of : Text → Token
token_of subject = record {
  method = hs256;
  claims = some (record { sub = some subject });
  is_valid = true;
}

abbrev admit : Result Text → Bool → Text → Reply Token
admit (ok secret) true subject = done (token_of subject)
admit (ok secret) false subject = fault 1
admit (err e) live subject = fault 2

abbrev date_of : (sign_bit n : ℕ) → ℤ
date_of zero n = pos n
date_of (suc other) n = negsuc n

abbrev read : Text → (SigningMethod → Result Text) → ℤ → Reply Token
read (sign_bit ∷ n ∷ subject) key now = admit (key hs256) (ltb_ℤ now (date_of sign_bit n)) subject
read _ key now = fault 3

abbrev id_of : Text → Reply ℕ
id_of (id ∷ []) = done id
id_of _ = fault 4

abbrev pub toy : JwtLib
toy = record {
  numeric_date = λ t. t;
  signed_string = sign;
  parse = read;
  uuid_string = λ id. id ∷ [];
  uuid_parse = id_of;
}

done_eq : {A : Type 0} {a b : A} → done a ≡ done b → a ≡ b
done_eq e = cc

read-date_code :
    (date : ℤ) (subject : Text) (key : SigningMethod → Result Text) (now : ℤ)
    → read (date_code date subject) key now ≡ admit (key hs256) (ltb_ℤ now date) subject
read-date_code (pos n) subject key now = refl
read-date_code (negsuc n) subject key now = refl

lt→ltb_ℤ : (a b : ℤ) → a <ℤ b → ltb_ℤ a b ≡ true
lt→ltb_ℤ a b h = ground arith

le→ltb_ℤ : (a b : ℤ) → b ≤ℤ a → ltb_ℤ a b ≡ false
le→ltb_ℤ a b h = ground arith

module _ (claims : RegisteredClaims) (secret token : Text) (key : SigningMethod → Result Text)
    (now : ℤ) where
  accepts_toy :
      (method : SigningMethod)
      → sign method claims secret ≡ done token
      → key method ≡ ok secret
      → now <ℤ claims.expires_at
      → read token key now
        ≡ done (record {
          method = method;
          claims = some (record { sub = some claims.subject });
          is_valid = true;
        })
  accepts_toy hs256 e k h = rw (
    ← done_eq e,
    read-date_code claims.expires_at claims.subject key now,
    k,
    lt→ltb_ℤ now claims.expires_at h,
  )
  accepts_toy (other_method n) e k h = cc

  admit_late : (r : Result Text) (subject : Text) → (n : ℕ) × (admit r false subject ≡ fault n)
  admit_late (ok s) subject = (1, refl)
  admit_late (err e) subject = (2, refl)

  expires_toy :
      (method : SigningMethod)
      → sign method claims secret ≡ done token
      → claims.expires_at ≤ℤ now
      → (n : ℕ) × (read token key now ≡ fault n)
  expires_toy hs256 e h =
      rw
        (
          ← done_eq e,
          read-date_code claims.expires_at claims.subject key now,
          le→ltb_ℤ now claims.expires_at h,
        )
        (admit_late (key hs256) claims.subject)
  expires_toy (other_method n) e h = cc

admit_keyed :
    (r : Result Text) (live : Bool) (subject : Text) (t : Token)
    → admit r live subject ≡ done t
    → (secret : Text) × (r ≡ ok secret) × (t.method ≡ hs256)
admit_keyed (ok secret) true subject t e = (secret, refl, rw (← done_eq e))
admit_keyed (ok secret) false subject t e = cc
admit_keyed (err x) live subject t e = cc

keyed_toy :
    (token : Text) (key : SigningMethod → Result Text) (now : ℤ) (t : Token)
    → read token key now ≡ done t
    → (secret : Text) × (key t.method ≡ ok secret)
keyed_toy [] key now t e = cc
keyed_toy (a ∷ []) key now t e = cc
keyed_toy (a ∷ n ∷ subject) key now t e =
    let (secret, k, m) = admit_keyed (key hs256) (ltb_ℤ now (date_of a n)) subject t e in
    (secret, rw m k)

pub toy-JwtLaws : JwtLaws toy
toy-JwtLaws = record {
  date_before = λ t. omega arith;
  date_after = λ t. omega int_laws;
  accepts = λ method claims secret token key now. accepts_toy claims secret token key now method;
  expires = λ method claims secret token key now. expires_toy claims secret token key now method;
  keyed = keyed_toy;
  uuid_round_trip = λ id. refl;
}
