-- ===== src/User.antt =====
-- internal/user/user.go and repo.go: the accounts and the statements on their table.
pub mod Context
pub mod Hasher
pub mod Service
pub mod Handler
pub mod Middleware
pub mod Accounts
pub mod Responses
pub mod Registration
pub mod Login
pub mod Session
mod Tests
use loyalty_system.Prelude.{
  ℕ, Bool, true, false, ◌||◌, List, [], ◌∷◌, map, any, Text, text_eq, ◌==◌, if◌then◌else◌,
}
use loyalty_system.Errors.{
  Error, sentinel, wrap, join, user_already_exists, user_not_found, no_rows, unique_violation,
  errors_is, is_unique_violation, Result, ok, err, Exec,
}
use loyalty_system.Pg.{Pg, Stmt, Tables, UserRow, select, one_row}

pub record User : Type 0 where
  pub id : ℕ
  pub login : Text
  pub password : Text

pub record AuthUserReq : Type 0 where
  pub login : Text
  pub password : Text

pub record UserResponse : Type 0 where
  pub id : ℕ
  pub login : Text

pub record AuthUserRes : Type 0 where
  pub user : UserResponse
  pub token : Text

abbrev pub new_auth_session : User → Text → AuthUserRes
new_auth_session u token = record { user = record { id = u.id; login = u.login }; token = token }

-- The primary key and the constraint UNIQUE on `login`.
abbrev pub clashes : ℕ → Text → UserRow → Bool
clashes id login row = (row.id == id) || text_eq row.login login

abbrev pub user_row : Text → Text → ℕ → UserRow
user_row login password id = record { id = id; login = login; password = password }

abbrev pub to_struct : UserRow → User
to_struct row = record { id = row.id; login = row.login; password = row.password }

-- INSERT … RETURNING id, login, password
unfoldable pub insert_user_stmt : (login hashed_password : Text) → Stmt User
insert_user_stmt login hashed_password env t =
    if any (clashes env.new_id login) t.users then (err unique_violation, t) else (
      ok (to_struct (user_row login hashed_password env.new_id)),
      record t { users = user_row login hashed_password env.new_id ∷ t.users },
    )

unfoldable pub user_by_login_query : Text → Stmt User
user_by_login_query login env t =
    (one_row (map to_struct (select (λ row. text_eq row.login login) t.users)), t)

abbrev pub create_reply : Result User → Result User
create_reply (ok u) = ok u
create_reply (err e) =
    if is_unique_violation e
    then err (join (sentinel user_already_exists) e)
    else err (wrap "failed to create user" e)

abbrev pub login_reply : Result User → Result User
login_reply (ok u) = ok u
login_reply (err e) =
    if errors_is e no_rows
    then err (join (sentinel user_not_found) e)
    else err (wrap "failed to get user" e)

module _ (pg : Pg) where
  unfoldable pub create_user : (login hashed_password : Text) → Exec pg.Server User
  create_user login hashed_password s =
      let (r, s') = pg.query User (insert_user_stmt login hashed_password) s in (create_reply r, s')

  unfoldable pub get_by_login : Text → Exec pg.Server User
  get_by_login login s =
      let (r, s') = pg.query User (user_by_login_query login) s in (login_reply r, s')
