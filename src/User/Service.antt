-- ===== src/User/Service.antt =====
-- internal/user/service.go: registration and login.
use loyalty_system.Prelude.{ℕ, [], ◌||◌, Text, text_eq, if◌then◌else◌}
use loyalty_system.Errors.{
  Error, sentinel, wrap, invalid_credentials, Result, ok, err, Exec, pure, raise, wrapping, ◌>>=◌,
  ◌>>◌,
}
use loyalty_system.User.{User, AuthUserRes, new_auth_session}

pub record RepoProvider (W : Type 0) : Type 0 where
  pub create_user : (login hashed_password : Text) → Exec W User
  pub get_by_login : Text → Exec W User

pub record TokenProvider (W : Type 0) : Type 0 where
  pub generate : ℕ → Exec W Text

pub record HasherProvider (W : Type 0) : Type 0 where
  pub hash : Text → Exec W Text
  pub compare : (hashed plain : Text) → Result (Unit {0})

pub record Service (W : Type 0) : Type 0 where
  pub repo : RepoProvider W
  pub tokens : TokenProvider W
  pub hasher : HasherProvider W

abbrev pub required : Error
required = wrap "login and password are required" (sentinel invalid_credentials)

module _ {W : Type 0} (s : Service W) where
  -- `if err := s.hasher.Compare(…); err != nil { return …, ErrInvalidCredentials }`
  abbrev pub checked : Result (Unit {0}) → Exec W (Unit {0})
  checked (ok _) = pure tt
  checked (err e) = raise (sentinel invalid_credentials)

  abbrev pub open_session : User → Exec W AuthUserRes
  open_session user = do
    token ← wrapping "generate token" (s.tokens.generate user.id)
    pure (new_auth_session user token)

  unfoldable pub create_user : (login password : Text) → Exec W AuthUserRes
  create_user login password =
      if text_eq login [] || text_eq password [] then raise required else (do
        hashed ← wrapping "hash password" (s.hasher.hash password)
        user ← wrapping "create user" (s.repo.create_user login hashed)
        open_session user)

  unfoldable pub get_by_login : (login password : Text) → Exec W AuthUserRes
  get_by_login login password =
      if text_eq login [] || text_eq password [] then raise required else (do
        user ← wrapping "authenticate" (s.repo.get_by_login login)
        checked (s.hasher.compare user.password password)
        open_session user)
