-- ===== src/User/Responses.antt =====
-- The endpoints of internal/user/handler.go over the service, the repository, bcrypt and the tokens,
-- as cmd/gophermart/di/app.go puts them together.
use loyalty_system.Prelude.{
  ℕ, ◌≡◌, refl, ◌⊎◌, inl, inr, true, false, ◌||◌, none, some, [], ◌++◌, Text, text_eq,
}
use loyalty_system.Prelude.Int.{ℤ}
use loyalty_system.Prelude.Strings.{bytes}
use loyalty_system.Errors.{wrap, foreign, ok, err, Reply, done, fault}
use loyalty_system.Http.{Response, value}
use loyalty_system.Pg.{Pg, Tables, UserRow}
use loyalty_system.World.{World, on_server, on_rest}
use loyalty_system.Auth.{JwtLib, Jwt, signed, generate}
use loyalty_system.User.{User, AuthUserReq, AuthUserRes, user_row, to_struct, new_auth_session}
use loyalty_system.User
use loyalty_system.User.Hasher.{Bcrypt, hash, compare}
use loyalty_system.User.Service.{Service}
use loyalty_system.User.Accounts.{holder, with_account, IsTaken}

-- What the service is made of besides the database. The clock is read twice for a token.
pub record Parts (E : Type 0) : Type 0 where
  pub bcrypt : Bcrypt E
  pub lib : JwtLib
  pub jwt : Jwt
  pub now : E → ℤ
  pub later : E → ℤ

module _ {E : Type 0} (pg : Pg) (parts : Parts E) where
  abbrev pub service_of : Service (World pg.Server E)
  service_of = record {
    repo = record {
      create_user = λ login hashed. on_server (User.create_user pg login hashed);
      get_by_login = λ login. on_server (User.get_by_login pg login);
    };
    tokens = record {
      generate = λ user_id w.
          (generate parts.lib parts.jwt (parts.now w.rest) (parts.later w.rest) user_id, w);
    };
    hasher = record {
      hash = λ plain. on_rest (hash parts.bcrypt plain);
      compare = compare parts.bcrypt;
    };
  }

-- A response that opens a session with a token that was generated for the user.
pub record IsWelcome {E : Type 0} (parts : Parts E) (e : E) (user_id : ℕ) (login : Text)
    (response : Response AuthUserRes) : Type 0 where
  pub token : Text
  pub made : generate parts.lib parts.jwt (parts.now e) (parts.later e) user_id ≡ ok token
  pub status : response.status ≡ 200
  pub authorization : response.authorization ≡ some (bytes "Bearer " ++ token)
  pub body :
      response.body
      ≡ value (record { user = record { id = user_id; login = login }; token = token })

-- How a registration is answered, and what it leaves in the tables.
pub data Registers {E : Type 0} (parts : Parts E) (e : E) (drawn : Text → ℕ) (u : AuthUserReq)
    (t : Tables) (response : Response AuthUserRes) (t' : Tables) : Type 0 where
  blank :
      (text_eq u.login [] || text_eq u.password []) ≡ true
      → response.status ≡ 400
      → t' ≡ t
      → Registers parts e drawn u t response t'
  welcomed :
      (text_eq u.login [] || text_eq u.password []) ≡ false
      → holder u.login t ≡ none
      → (id : ℕ) (hashed : Text) → IsWelcome parts e id u.login response
      → parts.bcrypt.compare_hash_and_password hashed u.password ≡ done tt
      → t' ≡ with_account u.login hashed id t
      → Registers parts e drawn u t response t'
  -- the login is held, or the id that was drawn for the account with the password's hash
  conflict :
      (text_eq u.login [] || text_eq u.password []) ≡ false
      → (hashed : Text) → parts.bcrypt.compare_hash_and_password hashed u.password ≡ done tt
      → IsTaken (drawn hashed) u.login t
      → response.status ≡ 409
      → t' ≡ t
      → Registers parts e drawn u t response t'
  broken :
      response.status ≡ 500
      → (t' ≡ t)
        ⊎ ((id : ℕ) × (hashed : Text) × (holder u.login t ≡ none)
            × (t' ≡ with_account u.login hashed id t))
      → Registers parts e drawn u t response t'

-- How a login is answered.
pub data LogsIn {E : Type 0} (parts : Parts E) (e : E) (u : AuthUserReq) (t : Tables)
    (response : Response AuthUserRes) : Type 0 where
  blank :
      (text_eq u.login [] || text_eq u.password []) ≡ true
      → response.status ≡ 401
      → LogsIn parts e u t response
  unknown_login : holder u.login t ≡ none → response.status ≡ 401 → LogsIn parts e u t response
  wrong_password :
      (row : UserRow) (n : ℕ)
      → holder u.login t ≡ some row
      → parts.bcrypt.compare_hash_and_password row.password u.password ≡ fault n
      → response.status ≡ 401
      → LogsIn parts e u t response
  welcomed :
      (row : UserRow)
      → holder u.login t ≡ some row
      → parts.bcrypt.compare_hash_and_password row.password u.password ≡ done tt
      → IsWelcome parts e row.id row.login response
      → LogsIn parts e u t response
  broken : response.status ≡ 500 → LogsIn parts e u t response

pub generate-cases :
    (lib : JwtLib) (jwt : Jwt) (now later : ℤ) (user_id : ℕ)
    → ((token : Text) × (generate lib jwt now later user_id ≡ ok token))
      ⊎ ((n : ℕ) × (generate lib jwt now later user_id ≡ err (wrap "sign jwt" (foreign n))))
unfolding generate
generate-cases lib jwt now later user_id = go _
  where
    go :
        (r : Reply Text)
        → ((token : Text) × (signed lib jwt r ≡ ok token))
          ⊎ ((n : ℕ) × (signed lib jwt r ≡ err (wrap "sign jwt" (foreign n))))
    go (done token) = inl (token, refl)
    go (fault n) = inr (n, refl)
