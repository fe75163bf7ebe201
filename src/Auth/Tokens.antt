-- ===== src/Auth/Tokens.antt =====
-- What a token of internal/auth/jwt.go is good for.
use loyalty_system.Prelude.{ℕ, ◌≡◌, refl, true, Text, arith}
use loyalty_system.Prelude.Int.{ℤ, pos, ◌+ℤ◌, ◌≤ℤ◌, int_laws}
use loyalty_system.Errors.{Error, wrap, foreign, ok, err, Reply, done, fault}
use loyalty_system.Auth.{
  SigningMethod, hs256, other_method, Token, JwtLib, JwtLaws, Jwt, key_of, claims_of, signed,
  generate, parse, checked,
}

signed-done :
    (lib : JwtLib) (j : Jwt) (r : Reply Text) (token : Text)
    → signed lib j r ≡ ok token
    → r ≡ done token
signed-done lib j (done t) token e = cc
signed-done lib j (fault n) token e = cc

module _ (lib : JwtLib) (laws : JwtLaws lib) (j : Jwt) where
  -- A token that was generated for a user is parsed back to that user, at any time up to a second
  -- before its lifetime ends.
  pub generate-parse :
      (user_id : ℕ) (now later : ℤ) (token : Text)
      → generate lib j now later user_id ≡ ok token
      → (at : ℤ) → at +ℤ pos 1_000_000_000 ≤ℤ now +ℤ j.ttl
      → parse lib j at token ≡ ok user_id
  unfolding generate parse
  generate-parse user_id now later token made at early =
      let claims = claims_of lib j now later user_id in
      let e = signed-done lib j (lib.signed_string hs256 claims j.secret) token made in
      rw (
        laws.accepts hs256 claims j.secret token (key_of j) at e refl
            (omega (int_laws, laws.date_after (now +ℤ j.ttl))),
        laws.uuid_round_trip user_id,
      )

  -- A token that was generated is refused from the end of its lifetime on.
  pub generate-parse_expired :
      (user_id : ℕ) (now later : ℤ) (token : Text)
      → generate lib j now later user_id ≡ ok token
      → (at : ℤ) → now +ℤ j.ttl ≤ℤ at
      → (e : Error) × (parse lib j at token ≡ err e)
  unfolding generate parse
  generate-parse_expired user_id now later token made at late =
      let claims = claims_of lib j now later user_id in
      let e = signed-done lib j (lib.signed_string hs256 claims j.secret) token made in
      let (n, refused) =
        laws.expires hs256 claims j.secret token (key_of j) at e
          (omega (int_laws, laws.date_before (now +ℤ j.ttl))) in
      (wrap "parse jwt" (foreign n), rw refused)

  key_of-hs256 : (m : SigningMethod) (secret : Text) → key_of j m ≡ ok secret → m ≡ hs256
  key_of-hs256 hs256 secret e = refl
  key_of-hs256 (other_method n) secret e = cc

  checked-done :
      (r : Reply Token) (user_id : ℕ)
      → checked lib j r ≡ ok user_id
      → (t : Token) × (r ≡ done t) × (t.is_valid ≡ true)
  checked-done (done t) user_id e = (t, refl, ground arith)
  checked-done (fault n) user_id e = cc

  -- A token is accepted only if the library finds it valid and it is signed with HS256: one that
  -- names another method, or none, is refused.
  pub parse-hs256 :
      (at : ℤ) (token : Text) (user_id : ℕ)
      → parse lib j at token ≡ ok user_id
      → (t : Token) × (lib.parse token (key_of j) at ≡ done t)
        × (t.is_valid ≡ true)
        × (t.method ≡ hs256)
  unfolding parse
  parse-hs256 at token user_id e =
      let (t, parsed, valid) = checked-done (lib.parse token (key_of j) at) user_id e in
      let (secret, key) = laws.keyed token (key_of j) at t parsed in
      (t, parsed, valid, key_of-hs256 t.method secret key)
