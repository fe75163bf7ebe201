-- ===== src/User/Session.antt =====
-- A session from end to end: the token that internal/user/handler.go answers with, sent back to the
-- handlers behind internal/user/middleware.go.
use loyalty_system.Prelude.{ℕ, ◌≡◌, refl, sym, ◌∙◌, true, some, ◌++◌, Text, text_eq_iff, arith}
use loyalty_system.Prelude.Int.{ℤ, pos, ◌+ℤ◌, ◌≤ℤ◌}
use loyalty_system.Prelude.Strings.{bytes}
use loyalty_system.Errors.{Reply, done}
use loyalty_system.Http.{Request, Response, Handler}
use loyalty_system.Pg.{Pg, PgLaws, UserRow}
use loyalty_system.World.{World}
use loyalty_system.Auth.{JwtLaws}
use loyalty_system.Auth.Tokens.{generate-parse}
use loyalty_system.User.{AuthUserReq, AuthUserRes}
use loyalty_system.User.Accounts.{holder}
use loyalty_system.User.Context.{with_user_id}
use loyalty_system.User.Handler.{auth_user_handler}
use loyalty_system.User.Responses
use loyalty_system.User.Responses.{Parts, service_of, IsWelcome, LogsIn}
use loyalty_system.User.Login.{auth_user_handler-LogsIn}
use loyalty_system.User.Middleware.{auth_middleware, equal_fold, Carries, carried}

some_eq : {a b : Text} → some a ≡ some b → a ≡ b
some_eq e = cc

same_scheme : equal_fold (bytes "Bearer") (bytes "Bearer") ≡ true
same_scheme = (text_eq_iff _ _).1 refl

-- The header of a session, sent back before the token expires, is accepted for the session's user.
welcome_serves :
    {E : Type 0} (parts : Parts E) (laws : JwtLaws parts.lib) (e : E) (user_id : ℕ) (login : Text)
    (response : Response AuthUserRes)
    → IsWelcome parts e user_id login response
    → {W A : Type 0} (clock : W → ℤ) (next : Handler W A) (q : Request) (v : W)
    → response.authorization ≡ some q.authorization
    → clock v +ℤ pos 1_000_000_000 ≤ℤ parts.now e +ℤ parts.jwt.ttl
    → auth_middleware parts.lib parts.jwt clock next q v ≡ next (with_user_id user_id q) v
welcome_serves parts laws e user_id login response welcome clock next q v sent early =
    let header : q.authorization ≡ bytes "Bearer " ++ welcome.token =
      some_eq (sym sent ∙ welcome.authorization) in
    let c : Carries q.authorization welcome.token = (bytes "Bearer", header, refl, same_scheme) in
    carried parts.lib parts.jwt clock next q v welcome.token c
    ∙ rw
        (generate-parse parts.lib laws parts.jwt user_id (parts.now e) (parts.later e) welcome.token
          welcome.made (clock v) early)
        refl

-- After a login that was answered 200, any request that carries the response's header `Authorization`
-- passes the middleware up to a second before the token's lifetime ends: the protected handler runs,
-- for the account that has the login.
pub login_serves :
    {E : Type 0} (pg : Pg) (laws : PgLaws pg) (parts : Parts E) (jwt_laws : JwtLaws parts.lib)
    (decode : Text → Reply AuthUserReq) (w : World pg.Server E) (r : Request) (body : Text)
    (u : AuthUserReq)
    → r.body ≡ done body
    → decode body ≡ done u
    → (auth_user_handler (service_of pg parts) decode r w).0.status ≡ 200
    → {W A : Type 0} (clock : W → ℤ) (next : Handler W A) (q : Request) (v : W)
    → (auth_user_handler (service_of pg parts) decode r w).0.authorization ≡ some q.authorization
    → clock v +ℤ pos 1_000_000_000
      ≤ℤ parts.now (auth_user_handler (service_of pg parts) decode r w).1.rest +ℤ parts.jwt.ttl
    → (row : UserRow) × (holder u.login (pg.tables w.server) ≡ some row)
      × (auth_middleware parts.lib parts.jwt clock next q v ≡ next (with_user_id row.id q) v)
login_serves pg laws parts jwt_laws decode w r body u readable decoded success clock next q v sent
      early =
    go (auth_user_handler-LogsIn pg laws parts decode w r body u readable decoded).0
  where
    go :
        LogsIn parts
          (auth_user_handler (service_of pg parts) decode r w).1.rest
          u
          (pg.tables w.server)
          (auth_user_handler (service_of pg parts) decode r w).0
        → (row : UserRow) × (holder u.login (pg.tables w.server) ≡ some row)
          × (auth_middleware parts.lib parts.jwt clock next q v ≡ next (with_user_id row.id q) v)
    go (Responses.LogsIn.blank h e) = absurd (omega (arith, e, success))
    go (Responses.LogsIn.unknown_login h e) = absurd (omega (arith, e, success))
    go (Responses.LogsIn.wrong_password row n h bad e) = absurd (omega (arith, e, success))
    go (Responses.LogsIn.broken e) = absurd (omega (arith, e, success))
    go (Responses.LogsIn.welcomed row h fits welcome) = (
      row,
      h,
      welcome_serves parts jwt_laws _ row.id row.login _ welcome clock next q v sent early,
    )
