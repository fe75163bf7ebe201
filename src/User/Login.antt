-- ===== src/User/Login.antt =====
-- `POST /api/user/login` of internal/user/handler.go: the response, and that an account that was
-- registered can log in.
use loyalty_system.Prelude.{
  ℕ, ◌≡◌, refl, ◌∙◌, sym, ◌⊎◌, inl, inr, false, ◌||◌, [], Text, text_eq, Bool-cases, some,
  text_eq_iff, arith,
}
use loyalty_system.Errors.{Result, ok, Reply, done, Reply-cases, continue, relabel}
use loyalty_system.Http.{Request, Response}
use loyalty_system.Pg.{Pg, PgLaws, Tables, UserRow}
use loyalty_system.World.{World}
use loyalty_system.User.{User, AuthUserReq, AuthUserRes, user_row, to_struct}
use loyalty_system.User
use loyalty_system.User.Hasher.{BcryptLaws}
use loyalty_system.User.Service.{get_by_login, open_session, checked}
use loyalty_system.User.Accounts.{holder, with_account, Finds, get_by_login-Finds}
use loyalty_system.User.Accounts
use loyalty_system.User.Handler.{auth_user_handler, authenticated, create_user_handler}
use loyalty_system.User.Responses.{Parts, service_of, IsWelcome, Registers, LogsIn, generate-cases}
use loyalty_system.User.Responses
use loyalty_system.User.Registration.{create_user_handler-Registers}

module _ {E : Type 0} (pg : Pg) (laws : PgLaws pg) (parts : Parts E) (u : AuthUserReq)
    (w : World pg.Server E) where
  abbrev Answers : Result AuthUserRes × World pg.Server E → Type 0
  Answers (r, w') =
      LogsIn parts w'.rest u (pg.tables w.server) (authenticated r)
      × (pg.tables w'.server ≡ pg.tables w.server)

  session_stage :
      (row : UserRow) (x : World pg.Server E)
      → holder u.login (pg.tables w.server) ≡ some row
      → parts.bcrypt.compare_hash_and_password row.password u.password ≡ done tt
      → pg.tables x.server ≡ pg.tables w.server
      → Answers (open_session (service_of pg parts) (to_struct row) x)
  session_stage row x held fits kept =
      elim (generate-cases parts.lib parts.jwt (parts.now x.rest) (parts.later x.rest) row.id) [
        | inl (token, e) ↦ rw e (
          Responses.LogsIn.welcomed row held fits (record {
            token = token;
            made = e;
            status = refl;
            authorization = refl;
            body = refl;
          }),
          kept,
        )
        | inr (n, e) ↦ rw e (Responses.LogsIn.broken refl, kept)
      ]

  abbrev looked_up : Result User → World pg.Server E → Result AuthUserRes × World pg.Server E
  looked_up r x =
      continue (relabel "authenticate" r)
        (λ user y.
          continue
            (checked (service_of pg parts)
              ((service_of pg parts).hasher.compare user.password u.password) y).0
            (λ _. open_session (service_of pg parts) user)
            (checked (service_of pg parts)
              ((service_of pg parts).hasher.compare user.password u.password) y).1)
        x

  found_stage :
      (row : UserRow) (x : World pg.Server E)
      → holder u.login (pg.tables w.server) ≡ some row
      → pg.tables x.server ≡ pg.tables w.server
      → Answers (looked_up (ok (to_struct row)) x)
  found_stage row x held kept =
      elim (Reply-cases (parts.bcrypt.compare_hash_and_password row.password u.password)) [
        | inl (one, fits) ↦ rw fits (session_stage row x held fits kept)
        | inr (n, differs) ↦
            rw differs (Responses.LogsIn.wrong_password row n held differs refl, kept)
      ]

  lookup_stage :
      (r : Result User) (x : World pg.Server E)
      → Finds u.login (pg.tables w.server) r (pg.tables x.server)
      → Answers (looked_up r x)
  lookup_stage r x (Accounts.found row held e kept) = rw e (found_stage row x held kept)
  lookup_stage r x (Accounts.unknown free e kept) =
      rw e (Responses.LogsIn.unknown_login free refl, kept)
  lookup_stage r x (Accounts.broken e reply (m, n, internal) kept) =
      rw (reply, internal) (Responses.LogsIn.broken refl, kept)

  get_by_login-Answers : Answers (get_by_login (service_of pg parts) u.login u.password w)
  unfolding get_by_login
  get_by_login-Answers = elim (Bool-cases (text_eq u.login [] || text_eq u.password [])) [
    | inl is_blank ↦ rw is_blank (Responses.LogsIn.blank is_blank refl, refl)
    | inr given ↦ rw given (
        lookup_stage (User.get_by_login pg u.login w.server).0
          (record w { server = (User.get_by_login pg u.login w.server).1 })
          (get_by_login-Finds pg laws u.login w.server))
  ]

module _ {E : Type 0} (pg : Pg) (laws : PgLaws pg) (parts : Parts E)
    (decode : Text → Reply AuthUserReq) (w : World pg.Server E) (r : Request) (body : Text)
    (u : AuthUserReq) (readable : r.body ≡ done body) (decoded : decode body ≡ done u) where
  pub auth_user_handler-LogsIn :
      let (response, w') = auth_user_handler (service_of pg parts) decode r w in
      LogsIn parts w'.rest u (pg.tables w.server) response
      × (pg.tables w'.server ≡ pg.tables w.server)
  unfolding auth_user_handler
  auth_user_handler-LogsIn = rw (readable, decoded) (get_by_login-Answers pg laws parts u w)

-- What a successful registration has left for a login.
registered_account :
    {E : Type 0} (parts : Parts E) (x : E) (drawn : Text → ℕ) (u : AuthUserReq) (t t' : Tables)
    (response : Response AuthUserRes)
    → Registers parts x drawn u t response t'
    → response.status ≡ 200
    → (id : ℕ) × (hashed : Text) × IsWelcome parts x id u.login response
      × (parts.bcrypt.compare_hash_and_password hashed u.password ≡ done tt)
      × (holder u.login t' ≡ some (user_row u.login hashed id))
      × ((text_eq u.login [] || text_eq u.password []) ≡ false)
registered_account parts x drawn u t t' response (Responses.Registers.blank h e kept) success =
    absurd (omega (arith, e, success))
registered_account parts x drawn u t t' response
      (Responses.Registers.welcomed given free id hashed welcome fits kept) success =
    (id, hashed, welcome, fits, rw (kept, (text_eq_iff u.login u.login).1 refl), given)
registered_account parts x drawn u t t' response
      (Responses.Registers.conflict given hashed fits h e kept) success =
    absurd (omega (arith, e, success))
registered_account parts x drawn u t t' response (Responses.Registers.broken e kept) success =
    absurd (omega (arith, e, success))

some_eq : {A : Type 0} {a b : A} → some a ≡ some b → a ≡ b
some_eq e = cc

logged_in :
    {E : Type 0} (parts : Parts E) (x : E) (u : AuthUserReq) (t : Tables) (id : ℕ) (hashed : Text)
    (response : Response AuthUserRes)
    → parts.bcrypt.compare_hash_and_password hashed u.password ≡ done tt
    → holder u.login t ≡ some (user_row u.login hashed id)
    → (text_eq u.login [] || text_eq u.password []) ≡ false
    → LogsIn parts x u t response
    → IsWelcome parts x id u.login response ⊎ (response.status ≡ 500)
logged_in parts x u t id hashed response fits held given (Responses.LogsIn.blank h e) = cc
logged_in parts x u t id hashed response fits held given (Responses.LogsIn.unknown_login h e) = cc
logged_in parts x u t id hashed response fits held given
      (Responses.LogsIn.wrong_password row n h bad e) =
    let same : row ≡ user_row u.login hashed id = some_eq (sym h ∙ held) in
    absurd (cc (rw same at bad))
logged_in parts x u t id hashed response fits held given
      (Responses.LogsIn.welcomed row h ok_hash welcome) =
    let same : row ≡ user_row u.login hashed id = some_eq (sym h ∙ held) in inl (rw same at welcome)
logged_in parts x u t id hashed response fits held given (Responses.LogsIn.broken e) = inr e

-- A user who has just registered can log in: after a registration that was answered 200, a login with
-- the same login and password opens a session for the same account, unless something fails (500).
pub registered_can_login :
    {E : Type 0} (pg : Pg) (laws : PgLaws pg) (parts : Parts E) (hashing : BcryptLaws parts.bcrypt)
    (decode : Text → Reply AuthUserReq) (w : World pg.Server E) (r : Request) (body : Text)
    (u : AuthUserReq)
    → r.body ≡ done body
    → decode body ≡ done u
    → (create_user_handler (service_of pg parts) decode r w).0.status ≡ 200
    → let (first, w') = create_user_handler (service_of pg parts) decode r w in
      let (second, w'') = auth_user_handler (service_of pg parts) decode r w' in
      (id : ℕ) × IsWelcome parts w'.rest id u.login first
      × (IsWelcome parts w''.rest id u.login second ⊎ (second.status ≡ 500))
registered_can_login pg laws parts hashing decode w r body u readable decoded success =
    let registers =
      create_user_handler-Registers pg laws parts hashing decode w r body u readable decoded in
    let w' = (create_user_handler (service_of pg parts) decode r w).1 in
    let w'' = (auth_user_handler (service_of pg parts) decode r w').1 in
    let (id, hashed, welcome, fits, held, given) =
      registered_account parts w'.rest _ u _ _ _ registers success in
    let logs = (auth_user_handler-LogsIn pg laws parts decode w' r body u readable decoded).0 in
    (id, welcome, logged_in parts w''.rest u (pg.tables w'.server) id hashed _ fits held given logs)
