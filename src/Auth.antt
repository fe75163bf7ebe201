-- ===== src/Auth.antt =====
-- internal/auth/jwt.go: the tokens of the sessions. golang-jwt and google/uuid are a parameter,
-- `JwtLib`. Times and durations are in nanoseconds.
pub mod Tokens
pub mod Toy
mod Tests
use loyalty_system.Prelude.{ℕ, ◌≡◌, Bool, true, not, ◌||◌, Option, none, some, Text, if◌then◌else◌}
use loyalty_system.Prelude.Int.{ℤ, pos, ◌+ℤ◌, ◌≤ℤ◌, ◌<ℤ◌}
use loyalty_system.Errors.{Error, wrap, foreign, Result, ok, err, Reply, done, fault}

pub data SigningMethod : Type 0 where
  hs256 : SigningMethod
  other_method : ℕ → SigningMethod

pub record RegisteredClaims : Type 0 where
  pub subject : Text
  pub expires_at : ℤ
  pub issued_at : ℤ

-- `claims["sub"].(string)`, if the claim is there and a string
pub record MapClaims : Type 0 where
  pub sub : Option Text

-- A parsed token: `claims` is `token.Claims.(jwt.MapClaims)`.
pub record Token : Type 0 where
  pub method : SigningMethod
  pub claims : Option MapClaims
  pub is_valid : Bool

pub record JwtLib : Type 0 where
  pub numeric_date : ℤ → ℤ
  pub signed_string : SigningMethod → RegisteredClaims → (secret : Text) → Reply Text
  pub parse : Text → (key : SigningMethod → Result Text) → (now : ℤ) → Reply Token
  pub uuid_string : ℕ → Text
  pub uuid_parse : Text → Reply ℕ

-- The documented behaviour that the sessions rely on.
pub record JwtLaws (lib : JwtLib) : Type 0 where
  -- dates are cut to whole seconds
  pub date_before : (t : ℤ) → lib.numeric_date t ≤ℤ t
  pub date_after : (t : ℤ) → t <ℤ lib.numeric_date t +ℤ pos 1_000_000_000
  -- a token that was signed with the key is accepted until it expires, and not from then on
  pub accepts :
      (method : SigningMethod) (claims : RegisteredClaims) (secret token : Text)
      (key : SigningMethod → Result Text) (now : ℤ)
      → lib.signed_string method claims secret ≡ done token
      → key method ≡ ok secret
      → now <ℤ claims.expires_at
      → lib.parse token key now
        ≡ done (record {
          method = method;
          claims = some (record { sub = some claims.subject });
          is_valid = true;
        })
  pub expires :
      (method : SigningMethod) (claims : RegisteredClaims) (secret token : Text)
      (key : SigningMethod → Result Text) (now : ℤ)
      → lib.signed_string method claims secret ≡ done token
      → claims.expires_at ≤ℤ now
      → (n : ℕ) × (lib.parse token key now ≡ fault n)
  -- no token is accepted whose key was refused
  pub keyed :
      (token : Text) (key : SigningMethod → Result Text) (now : ℤ) (t : Token)
      → lib.parse token key now ≡ done t
      → (secret : Text) × (key t.method ≡ ok secret)
  pub uuid_round_trip : (user_id : ℕ) → lib.uuid_parse (lib.uuid_string user_id) ≡ done user_id

pub record Jwt : Type 0 where
  pub secret : Text
  pub ttl : ℤ

-- The key function of `Parse`.
abbrev pub key_of : Jwt → SigningMethod → Result Text
key_of j hs256 = ok j.secret
key_of j (other_method n) = err (wrap "unexpected signing method" (foreign n))

-- An error with a message and no cause.
abbrev pub message_only : Error
message_only = foreign 0

module _ (lib : JwtLib) (j : Jwt) where
  abbrev pub claims_of : (now later : ℤ) → ℕ → RegisteredClaims
  claims_of now later user_id = record {
    subject = lib.uuid_string user_id;
    expires_at = lib.numeric_date (now +ℤ j.ttl);
    issued_at = lib.numeric_date later;
  }

  abbrev pub signed : Reply Text → Result Text
  signed (done token) = ok token
  signed (fault n) = err (wrap "sign jwt" (foreign n))

  -- `time.Now` is read twice.
  unfoldable pub generate : (now later : ℤ) → ℕ → Result Text
  generate now later user_id =
      signed (lib.signed_string hs256 (claims_of now later user_id) j.secret)

  abbrev pub parsed_subject : Reply ℕ → Result ℕ
  parsed_subject (done user_id) = ok user_id
  parsed_subject (fault n) = err (wrap "parse subject" (foreign n))

  abbrev pub subject_of : Option Text → Result ℕ
  subject_of none = err (wrap "invalid subject" message_only)
  subject_of (some sub) = parsed_subject (lib.uuid_parse sub)

  abbrev pub user_of : (claims : Option MapClaims) (is_valid : Bool) → Result ℕ
  user_of none is_valid = err (wrap "invalid token" message_only)
  user_of (some claims) is_valid =
      if not is_valid then err (wrap "invalid token" message_only) else subject_of claims.sub

  abbrev pub checked : Reply Token → Result ℕ
  checked (done token) = user_of token.claims token.is_valid
  checked (fault n) = err (wrap "parse jwt" (foreign n))

  unfoldable pub parse : (now : ℤ) → Text → Result ℕ
  parse now token_string = checked (lib.parse token_string (key_of j) now)
