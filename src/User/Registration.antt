-- ===== src/User/Registration.antt =====
-- `POST /api/user/register` of internal/user/handler.go: the response, and what the request leaves in
-- the tables.
use loyalty_system.Prelude.{
  ℕ, ◌≡◌, refl, inl, inr, false, ◌||◌, [], Text, text_eq, Bool-cases, none,
}
use loyalty_system.Errors.{Result, Reply, done, Reply-cases, continue, relabel}
use loyalty_system.Http.{Request}
use loyalty_system.Pg.{Pg, PgLaws}
use loyalty_system.World.{World}
use loyalty_system.User.{User, AuthUserReq, AuthUserRes, user_row, to_struct}
use loyalty_system.User
use loyalty_system.User.Hasher.{BcryptLaws}
use loyalty_system.User.Service.{create_user, open_session}
use loyalty_system.User.Accounts.{drawn_id, holder, with_account, Creates, create_user-Creates}
use loyalty_system.User.Accounts
use loyalty_system.User.Handler.{create_user_handler, registered}
use loyalty_system.User.Responses.{
  Parts, service_of, Registers, blank, welcomed, conflict, broken, generate-cases,
}

module _ {E : Type 0} (pg : Pg) (laws : PgLaws pg) (parts : Parts E)
    (hashing : BcryptLaws parts.bcrypt) (u : AuthUserReq) (w : World pg.Server E) where
  abbrev Answers : Result AuthUserRes × World pg.Server E → Type 0
  Answers (r, w') =
      Registers parts w'.rest (drawn_id pg laws u.login w.server) u (pg.tables w.server)
        (registered r) (pg.tables w'.server)

  -- The account is there; the token may still fail.
  session_stage :
      (id : ℕ) (hashed : Text) (x : World pg.Server E)
      → (text_eq u.login [] || text_eq u.password []) ≡ false
      → holder u.login (pg.tables w.server) ≡ none
      → parts.bcrypt.compare_hash_and_password hashed u.password ≡ done tt
      → pg.tables x.server ≡ with_account u.login hashed id (pg.tables w.server)
      → Answers (open_session (service_of pg parts) (to_struct (user_row u.login hashed id)) x)
  session_stage id hashed x given free fits kept =
      elim (generate-cases parts.lib parts.jwt (parts.now x.rest) (parts.later x.rest) id) [
        | inl (token, e) ↦ rw e (
            welcomed given free id hashed
              (record { token = token; made = e; status = refl; authorization = refl; body = refl })
              fits kept)
        | inr (n, e) ↦ rw e (broken refl (inr (id, hashed, free, kept)))
      ]

  abbrev stored : Result User → World pg.Server E → Result AuthUserRes × World pg.Server E
  stored r x = continue (relabel "create user" r) (open_session (service_of pg parts)) x

  stored_stage :
      (hashed : Text) (r : Result User) (x : World pg.Server E)
      → (text_eq u.login [] || text_eq u.password []) ≡ false
      → parts.bcrypt.compare_hash_and_password hashed u.password ≡ done tt
      → Creates
          (drawn_id pg laws u.login w.server hashed)
          u.login
          hashed
          (pg.tables w.server)
          r
          (pg.tables x.server)
      → Answers (stored r x)
  stored_stage hashed r x given fits (Accounts.created free id e kept) =
      rw e (session_stage id hashed x given free fits kept)
  stored_stage hashed r x given fits (Accounts.taken is_taken e kept) =
      rw e (conflict given hashed fits is_taken refl kept)
  stored_stage hashed r x given fits (Accounts.failed e reply (m, n, internal) kept) =
      rw (reply, internal) (broken refl (inl kept))
  stored_stage hashed r x given fits (Accounts.unconfirmed free id e reply (m, n, internal) kept) =
      rw (reply, internal) (broken refl (inr (id, hashed, free, kept)))

  create_user-Answers : Answers (create_user (service_of pg parts) u.login u.password w)
  unfolding create_user
  create_user-Answers = elim (Bool-cases (text_eq u.login [] || text_eq u.password [])) [
    | inl is_blank ↦ rw is_blank (blank is_blank refl refl)
    | inr given ↦
        elim (Reply-cases
          (parts.bcrypt.generate_from_password u.password parts.bcrypt.default_cost w.rest).0) [
            | inr (n, fails) ↦ rw (given, fails) (broken refl (inl refl))
            | inl (hashed, hashes) ↦
                rw (given, hashes)
                  (stored_stage hashed (User.create_user pg u.login hashed w.server).0
                    (record {
                      server = (User.create_user pg u.login hashed w.server).1;
                      rest =
                          (parts.bcrypt.generate_from_password u.password parts.bcrypt.default_cost
                            w.rest).1;
                    })
                    given
                    (hashing.accepts u.password hashed parts.bcrypt.default_cost w.rest hashes)
                    (create_user-Creates pg laws u.login w.server hashed))
          ]
  ]

pub create_user_handler-Registers :
    {E : Type 0} (pg : Pg) (laws : PgLaws pg) (parts : Parts E) (hashing : BcryptLaws parts.bcrypt)
    (decode : Text → Reply AuthUserReq) (w : World pg.Server E) (r : Request) (body : Text)
    (u : AuthUserReq)
    → r.body ≡ done body
    → decode body ≡ done u
    → let (response, w') = create_user_handler (service_of pg parts) decode r w in
      Registers parts w'.rest
        (drawn_id pg laws u.login w.server)
        u
        (pg.tables w.server)
        response
        (pg.tables w'.server)
unfolding create_user_handler
create_user_handler-Registers pg laws parts hashing decode w r body u readable decoded =
    rw (readable, decoded) (create_user-Answers pg laws parts hashing u w)
