-- ===== src/User/Tests.antt =====
-- Runs of internal/user over a server, a hash and a token library that do not fail, and the theorems at
-- those inputs.
use loyalty_system.Prelude.{
  ℕ, ◌≡◌, refl, sym, ◌⊎◌, true, none, some, [], ◌∷◌, Text, text_eq, text_eq_iff, ◌++◌,
  if◌then◌else◌,
}
use loyalty_system.Prelude.Int.{pos, ◌+ℤ◌, int_laws}
use loyalty_system.Prelude.Strings.{bytes}
use loyalty_system.Errors.{done, fault, Reply}
use loyalty_system.Http.{Request, Handler, write_header}
use loyalty_system.Pg.{Tables, UserRow}
use loyalty_system.Pg.Memory.{memory, memory-PgLaws}
use loyalty_system.World.{World}
use loyalty_system.Auth.{Jwt, parse, generate}
use loyalty_system.Auth.Toy.{toy, toy-JwtLaws}
use loyalty_system.User.Accounts.{holder}
use loyalty_system.User.Session.{login_serves}
use loyalty_system.User
use loyalty_system.User.Service
use loyalty_system.User.{insert_user_stmt, user_by_login_query, AuthUserReq, AuthUserRes}
use loyalty_system.User.Hasher.{Bcrypt, BcryptLaws}
use loyalty_system.User.Context.{with_user_id}
use loyalty_system.User.Handler.{create_user_handler, auth_user_handler}
use loyalty_system.User.Responses.{Parts, service_of, IsWelcome}
use loyalty_system.User.Login.{registered_can_login}
use loyalty_system.User.Middleware.{auth_middleware}

-- A hash that keeps the password.
abbrev plain_hash : Bcrypt Unit
plain_hash = record {
  default_cost = 10;
  generate_from_password = λ plain cost e. (done plain, e);
  compare_hash_and_password = λ hash plain. if text_eq hash plain then done tt else fault 1;
}

done_eq : {a b : Text} → done a ≡ done b → a ≡ b
done_eq e = cc

plain_hash-BcryptLaws : BcryptLaws plain_hash
plain_hash-BcryptLaws = record {
  accepts = λ plain hash cost e made.
      let same : text_eq hash plain ≡ true = (text_eq_iff hash plain).1 (sym (done_eq made)) in
      rw same;
}

abbrev jwt : Jwt
jwt = record { secret = b's' ∷ []; ttl = pos 3_600_000_000_000 }

abbrev parts : Parts Unit
parts = record { bcrypt = plain_hash; lib = toy; jwt = jwt; now = λ e. pos 5; later = λ e. pos 6 }

abbrev nobody : Tables
nobody = record {
  users = [];
  orders = [];
  user_balance = [];
  withdrawals = [];
  balance_accruals = [];
}

abbrev world : World Tables (Unit {0})
world = record { server = nobody; rest = tt }

abbrev ann : AuthUserReq
ann = record { login = bytes "ann"; password = bytes "pw" }

abbrev decode : Text → Reply AuthUserReq
decode body = done ann

abbrev request : Request
request = record { context = none; authorization = []; body = done [] }

abbrev joined : World Tables (Unit {0})
joined = (create_user_handler (service_of memory parts) decode request world).1

joined_ok : (create_user_handler (service_of memory parts) decode request world).0.status ≡ 200
unfolding create_user_handler Service.create_user text_eq User.create_user insert_user_stmt generate
joined_ok = refl

registered_can_login_example :
    let first = (create_user_handler (service_of memory parts) decode request world).0 in
    let second = (auth_user_handler (service_of memory parts) decode request joined).0 in
    (id : ℕ) × IsWelcome parts tt id ann.login first
    × (IsWelcome parts tt id ann.login second ⊎ (second.status ≡ 500))
registered_can_login_example =
    registered_can_login memory memory-PgLaws parts plain_hash-BcryptLaws decode world request []
      ann refl refl joined_ok

-- A protected handler that answers 200, and a request with a token for user 42.
abbrev protected : Handler Unit Unit
protected r w = (write_header 200, w)

abbrev ticket : Text
ticket = 0 ∷ 3_600_000_000_005 ∷ 42 ∷ []

abbrev with_ticket : Request
with_ticket = record request { authorization = bytes "bearer " ++ ticket }

served : auth_middleware toy jwt (λ w. pos 7) protected with_ticket tt ≡ (write_header 200, tt)
unfolding auth_middleware text_eq parse
served = refl

-- The header that a login answers with, sent back.
abbrev returning : Request
returning = record request { authorization = bytes "Bearer " ++ 0 ∷ 3_600_000_000_005 ∷ 100 ∷ [] }

login_ok :
    ((auth_user_handler (service_of memory parts) decode request joined).0.status ≡ 200)
    × ((auth_user_handler (service_of memory parts) decode request joined).0.authorization
        ≡ some returning.authorization)
unfolding auth_user_handler create_user_handler Service.create_user Service.get_by_login text_eq
    User.create_user User.get_by_login insert_user_stmt user_by_login_query generate ◌+ℤ◌
login_ok = (refl, refl)

login_serves_example :
    (row : UserRow) × (holder (bytes "ann") joined.server ≡ some row)
    × (auth_middleware toy jwt (λ w. pos 7) protected returning tt
        ≡ protected (with_user_id row.id returning) tt)
login_serves_example =
    login_serves memory memory-PgLaws parts toy-JwtLaws decode joined request [] ann refl refl
      login_ok.0 (λ w. pos 7) protected returning tt login_ok.1 (omega int_laws)
