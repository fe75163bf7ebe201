-- ===== src/User/Handler.antt =====
-- internal/user/handler.go: the handlers of registration and login. Decoding a request's JSON is
-- foreign code, a parameter of the handlers.
use loyalty_system.Prelude.{some, ◌++◌, Text, if◌then◌else◌}
use loyalty_system.Prelude.Strings.{bytes}
use loyalty_system.Errors.{
  errors_is, user_already_exists, user_not_found, invalid_credentials, Result, ok, err, Reply, done,
  fault,
}
use loyalty_system.Http.{Response, Handler, value, write_json, write_error, respond, after_call}
use loyalty_system.User.{AuthUserReq, AuthUserRes}
use loyalty_system.User.Service.{Service, create_user, get_by_login}

abbrev pub write_auth_session : AuthUserRes → Response AuthUserRes
write_auth_session session = record (write_json 200 (value session)) {
  authorization = some (bytes "Bearer " ++ session.token);
}

abbrev pub registered : Result AuthUserRes → Response AuthUserRes
registered (ok session) = write_auth_session session
registered (err e) =
    if errors_is e user_already_exists
    then write_error 409 "user already exists"
    else if errors_is e invalid_credentials
    then write_error 400 "invalid credentials"
    else write_error 500 "internal server error"

abbrev pub authenticated : Result AuthUserRes → Response AuthUserRes
authenticated (ok session) = write_auth_session session
authenticated (err e) =
    if errors_is e user_not_found
    then write_error 401 "user not found"
    else if errors_is e invalid_credentials
    then write_error 401 "invalid credentials"
    else write_error 500 "internal server error"

module _ {W : Type 0} (service : Service W) (decode : Text → Reply AuthUserReq) where
  -- Reading the body, then `json.Unmarshal`.
  abbrev pub with_request :
      (AuthUserReq → W → Response AuthUserRes × W)
      → Reply AuthUserReq
      → W
      → Response AuthUserRes × W
  with_request k (done u) = k u
  with_request k (fault n) = respond (write_error 400 "invalid JSON")

  abbrev pub with_body :
      (AuthUserReq → W → Response AuthUserRes × W) → Reply Text → W → Response AuthUserRes × W
  with_body k (done body) = with_request k (decode body)
  with_body k (fault n) = respond (write_error 400 "failed to read body")

  unfoldable pub create_user_handler : Handler W AuthUserRes
  create_user_handler r =
      with_body (λ u w. after_call registered (create_user service u.login u.password w)) r.body

  unfoldable pub auth_user_handler : Handler W AuthUserRes
  auth_user_handler r =
      with_body (λ u w. after_call authenticated (get_by_login service u.login u.password w)) r.body
