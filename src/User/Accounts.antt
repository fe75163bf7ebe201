-- ===== src/User/Accounts.antt =====
-- `UsersRepo` of internal/user/repo.go: what registration and lookup do to the tables.
use loyalty_system.Prelude.{
  ℕ, ◌≡◌, refl, ap, ◌∙◌, ◌⊎◌, inl, inr, true, false, Option, none, some, List, [], ◌∷◌, Text,
  text_eq, any, find, ◌==◌, arith, Bool-cases, Option-cases, String,
}
use loyalty_system.Errors.{
  Error, sentinel, wrap, join, foreign, no_rows, unique_violation, user_already_exists,
  user_not_found, Result, ok, err,
}
use loyalty_system.Pg.{Pg, PgLaws, Env, Tables, UserRow}
use loyalty_system.Pg.Lookup.{row_reply, one_row-select}
use loyalty_system.User.{
  User, clashes, user_row, to_struct, insert_user_stmt, user_by_login_query, create_user,
  get_by_login,
}

-- The account with a login.
abbrev pub holder : Text → Tables → Option UserRow
holder login t = find (λ row. text_eq row.login login) t.users

abbrev pub with_account : (login hashed : Text) → ℕ → Tables → Tables
with_account login hashed id t = record t { users = user_row login hashed id ∷ t.users }

-- An error of the server or the driver, under the message that the code puts before it.
abbrev pub IsInternal : Error → Type 0
IsInternal e = (message : String) × (n : ℕ) × (e ≡ wrap message (foreign n))

-- The constraint that a registration can break: the login is taken, or the id that the server drew is.
abbrev pub IsTaken : (drawn : ℕ) → Text → Tables → Type 0
IsTaken drawn login t =
    ((row : UserRow) × (holder login t ≡ some row)) ⊎ (any (λ row. row.id == drawn) t.users ≡ true)

-- The id that the server draws for an account.
abbrev pub drawn_id : (pg : Pg) → PgLaws pg → (login : Text) → pg.Server → (hashed : Text) → ℕ
drawn_id pg laws login s hashed =
    (laws.query_answers User (insert_user_stmt login hashed) s).0.new_id

pub data Creates (drawn : ℕ) (login hashed : Text) (t : Tables) (r : Result User) (t' : Tables)
    : Type 0 where
  created :
      holder login t ≡ none
      → (id : ℕ) → r ≡ ok (to_struct (user_row login hashed id))
      → t' ≡ with_account login hashed id t
      → Creates drawn login hashed t r t'
  taken :
      IsTaken drawn login t
      → r ≡ err (join (sentinel user_already_exists) unique_violation)
      → t' ≡ t
      → Creates drawn login hashed t r t'
  failed : (e : Error) → r ≡ err e → IsInternal e → t' ≡ t → Creates drawn login hashed t r t'
  unconfirmed :
      holder login t ≡ none
      → (id : ℕ) (e : Error) → r ≡ err e
      → IsInternal e
      → t' ≡ with_account login hashed id t
      → Creates drawn login hashed t r t'

pub data Finds (login : Text) (t : Tables) (r : Result User) (t' : Tables) : Type 0 where
  found :
      (row : UserRow)
      → holder login t ≡ some row
      → r ≡ ok (to_struct row)
      → t' ≡ t
      → Finds login t r t'
  unknown :
      holder login t ≡ none
      → r ≡ err (join (sentinel user_not_found) (sentinel no_rows))
      → t' ≡ t
      → Finds login t r t'
  broken : (e : Error) → r ≡ err e → IsInternal e → t' ≡ t → Finds login t r t'

clash_free :
    (id : ℕ) (login : Text) (rows : List UserRow)
    → any (clashes id login) rows ≡ false
    → find (λ row. text_eq row.login login) rows ≡ none
clash_free id login [] h = refl
clash_free id login (row ∷ rows) h = ground (arith, clash_free id login rows)

clash_id :
    (id : ℕ) (login : Text) (rows : List UserRow)
    → any (clashes id login) rows ≡ true
    → find (λ row. text_eq row.login login) rows ≡ none
    → any (λ row. row.id == id) rows ≡ true
clash_id id login [] h free = cc
clash_id id login (row ∷ rows) h free = ground (arith, clash_id id login rows)

module _ (login hashed : Text) (env : Env) (t : Tables) where
  insert_clash :
      any (clashes env.new_id login) t.users ≡ true
      → (insert_user_stmt login hashed env t ≡ (err unique_violation, t))
        × IsTaken env.new_id login t
  unfolding insert_user_stmt
  insert_clash h = (
    rw h,
    elim (Option-cases (holder login t)) [
      | inl free ↦ inr (clash_id env.new_id login t.users h free)
      | inr held ↦ inl held
    ],
  )

  insert_free :
      any (clashes env.new_id login) t.users ≡ false
      → insert_user_stmt login hashed env t ≡ (
        ok (to_struct (user_row login hashed env.new_id)),
        with_account login hashed env.new_id t,
      )
  unfolding insert_user_stmt
  insert_free h = rw h

query_lem :
    (login : Text) (env : Env) (t : Tables)
    → user_by_login_query login env t ≡ (row_reply to_struct (holder login t), t)
unfolding user_by_login_query
query_lem login env t = ap (λ (r : Result User). (r, t)) (one_row-select to_struct _ t.users)

module _ (pg : Pg) (laws : PgLaws pg) (login : Text) (s : pg.Server) where
  -- A registration in the repository creates the account, or is refused because the login (or the
  -- drawn id) is taken, or fails with no change, or is carried out without being confirmed.
  pub create_user-Creates :
      (hashed : Text)
      → let (r, s') = create_user pg login hashed s in
        Creates (drawn_id pg laws login s hashed) login hashed (pg.tables s) r (pg.tables s')
  unfolding create_user
  create_user-Creates hashed =
      let (env, outcome) = laws.query_answers User (insert_user_stmt login hashed) s in
      let t = pg.tables s in
      elim (Bool-cases (any (clashes env.new_id login) t.users)) [
        | inl clash ↦
            let (e, is_taken) = insert_clash login hashed env t clash in
            let kept = ap (λ (x : Result User × Tables). x.1) e in
            elim outcome [
              | inl (reply, after) ↦
                  rw (reply ∙ ap (λ (x : Result User × Tables). x.0) e)
                    (taken is_taken refl (after ∙ kept))
              | inr (n, reply, inl after) ↦
                  rw reply (failed _ refl ("failed to create user", n, refl) after)
              | inr (n, reply, inr after) ↦
                  rw reply (failed _ refl ("failed to create user", n, refl) (after ∙ kept))
            ]
        | inr open_login ↦
            let e = insert_free login hashed env t open_login in
            let free = clash_free env.new_id login t.users open_login in
            let kept = ap (λ (x : Result User × Tables). x.1) e in
            elim outcome [
              | inl (reply, after) ↦
                  rw (reply ∙ ap (λ (x : Result User × Tables). x.0) e)
                    (created free env.new_id refl (after ∙ kept))
              | inr (n, reply, inl after) ↦
                  rw reply (failed _ refl ("failed to create user", n, refl) after)
              | inr (n, reply, inr after) ↦ rw reply (
                  unconfirmed free env.new_id _ refl ("failed to create user", n, refl)
                    (after ∙ kept))
            ]
      ]

  -- A lookup finds the account with the login, reports that there is none, or fails; it changes
  -- nothing.
  pub get_by_login-Finds :
      let (r, s') = get_by_login pg login s in Finds login (pg.tables s) r (pg.tables s')
  unfolding get_by_login
  get_by_login-Finds =
      let (env, outcome) = laws.query_answers User (user_by_login_query login) s in
      let e = query_lem login env (pg.tables s) in
      let q = ap (λ (x : Result User × Tables). x.0) e in
      let kept = ap (λ (x : Result User × Tables). x.1) e in
      elim outcome [
        | inl (reply, after) ↦ elim (Option-cases (holder login (pg.tables s))) [
          | inl free ↦
              rw (reply ∙ q ∙ ap (row_reply to_struct) free) (unknown free refl (after ∙ kept))
          | inr (row, held) ↦
              rw (reply ∙ q ∙ ap (row_reply to_struct) held) (found row held refl (after ∙ kept))
        ]
        | inr (n, reply, inl after) ↦ rw reply (broken _ refl ("failed to get user", n, refl) after)
        | inr (n, reply, inr after) ↦
            rw reply (broken _ refl ("failed to get user", n, refl) (after ∙ kept))
      ]
