-- ===== src/Order/Upload.antt =====
-- `OrdersRepo.InsertOrder` of internal/order/repo.go: who owns an order number.
use loyalty_system.Prelude.{
  ℕ, ◌≡◌, ◌≢◌, refl, ap, ◌∙◌, inl, inr, true, false, Option, none, some, List, [], ◌∷◌, Text,
  text_eq, any, find, ◌==◌, ==_iff, arith, Bool-cases, Option-cases,
}
use loyalty_system.Errors.{
  Error, sentinel, invalid_order_number, order_was_uploaded, order_already_uploaded_by_user,
  unique_violation, errors_is, Result, ok, err,
}
use loyalty_system.Pg.{Pg, PgLaws, Env, Tables, OrderRow, has_user, foreign_key_violation}
use loyalty_system.Pg.Lookup.{row_reply, one_row-select}
use loyalty_system.Order.{
  Order, to_struct, clashes, new_row, insert_order_stmt, order_by_number_query, get_order_by_number,
  on_insert_error, insert_order,
}

-- The row that holds an order number.
abbrev pub holder : Text → Tables → Option OrderRow
holder number t = find (λ row. text_eq row.number number) t.orders

-- An error that is none of the answers about an order number.
abbrev pub IsOther : Error → Type 0
IsOther e =
    (errors_is e invalid_order_number ≡ false)
    × (errors_is e order_was_uploaded ≡ false)
    × (errors_is e order_already_uploaded_by_user ≡ false)

-- How an upload ends, and what it leaves in the tables.
pub data Uploads (user_id : ℕ) (number : Text) (t : Tables) (r : Result ℕ) (t' : Tables)
    : Type 0 where
  accepted :
      holder number t ≡ none
      → has_user user_id t ≡ true
      → (id now : ℕ) → r ≡ ok id
      → t' ≡ record t { orders = new_row user_id number id now ∷ t.orders }
      → Uploads user_id number t r t'
  held_by_user :
      (row : OrderRow)
      → holder number t ≡ some row
      → row.user_id ≡ user_id
      → r ≡ err (sentinel order_already_uploaded_by_user)
      → t' ≡ t
      → Uploads user_id number t r t'
  held_by_other :
      (row : OrderRow)
      → holder number t ≡ some row
      → row.user_id ≢ user_id
      → r ≡ err (sentinel order_was_uploaded)
      → t' ≡ t
      → Uploads user_id number t r t'
  failed : (e : Error) → r ≡ err e → IsOther e → t' ≡ t → Uploads user_id number t r t'
  unconfirmed :
      holder number t ≡ none
      → (id now : ℕ) (e : Error) → r ≡ err e
      → IsOther e
      → t' ≡ record t { orders = new_row user_id number id now ∷ t.orders }
      → Uploads user_id number t r t'

find-none :
    (id : ℕ) (number : Text) (rows : List OrderRow)
    → any (clashes id number) rows ≡ false
    → find (λ row. text_eq row.number number) rows ≡ none
find-none id number [] h = refl
find-none id number (row ∷ rows) h = ground (arith, find-none id number rows)

module _ (user_id : ℕ) (number : Text) (env : Env) (t : Tables) where
  insert_clash :
      any (clashes env.new_id number) t.orders ≡ true
      → insert_order_stmt user_id number env t ≡ (err unique_violation, t)
  unfolding insert_order_stmt
  insert_clash h = rw h

  insert_stranger :
      any (clashes env.new_id number) t.orders ≡ false
      → has_user user_id t ≡ false
      → insert_order_stmt user_id number env t ≡ (err foreign_key_violation, t)
  unfolding insert_order_stmt
  insert_stranger h k = rw (h, k)

  pub insert_free :
      any (clashes env.new_id number) t.orders ≡ false
      → has_user user_id t ≡ true
      → insert_order_stmt user_id number env t ≡ (
        ok env.new_id,
        record t { orders = new_row user_id number env.new_id env.now ∷ t.orders },
      )
  unfolding insert_order_stmt
  insert_free h k = rw (h, k)

query_lem :
    (number : Text) (env : Env) (t : Tables)
    → order_by_number_query number env t ≡ (row_reply to_struct (holder number t), t)
unfolding order_by_number_query
query_lem number env t = ap (λ (r : Result Order). (r, t)) (one_row-select to_struct _ t.orders)

module _ (pg : Pg) (laws : PgLaws pg) (user_id : ℕ) (number : Text) where
  -- After a clash the holder of the number is looked up.
  clash_cases :
      (s : pg.Server) (t : Tables)
      → pg.tables s ≡ t
      → let (r, s') = on_insert_error pg user_id number unique_violation s in
        Uploads user_id number t r (pg.tables s')
  unfolding on_insert_error get_order_by_number
  clash_cases s t same =
      let (env, outcome) = laws.query_answers Order (order_by_number_query number) s in
      let q = ap (λ (x : Result Order × Tables). x.0) (query_lem number env (pg.tables s)) in
      let kept : (order_by_number_query number env (pg.tables s)).1 ≡ t =
        ap (λ (x : Result Order × Tables). x.1) (query_lem number env (pg.tables s)) ∙ same in
      let hold : holder number (pg.tables s) ≡ holder number t = ap (holder number) same in
      elim outcome [
        | inl (reply, done) ↦ elim (Option-cases (holder number t)) [
          | inl free ↦
              rw (reply ∙ q ∙ ap (row_reply to_struct) (hold ∙ free))
                (failed _ refl (refl, refl, refl) (done ∙ kept))
          | inr (row, taken) ↦ elim (Bool-cases (row.user_id == user_id)) [
            | inl own ↦
                rw (reply ∙ q ∙ ap (row_reply to_struct) (hold ∙ taken), own)
                  (held_by_user row taken ((==_iff _ _).0 own) refl (done ∙ kept))
            | inr other ↦
                rw (reply ∙ q ∙ ap (row_reply to_struct) (hold ∙ taken), other)
                  (held_by_other row taken (ground arith) refl (done ∙ kept))
          ]
        ]
        | inr (n, reply, inl done) ↦ rw reply (failed _ refl (refl, refl, refl) (done ∙ same))
        | inr (n, reply, inr done) ↦ rw reply (failed _ refl (refl, refl, refl) (done ∙ kept))
      ]

  -- An upload ends in one of five ways. A number that nobody holds is taken into the table for a
  -- user who is there, as NEW. A number that the user holds, or that another user holds, is refused with the error
  -- that says so. Or the server fails, or does not know the user, and nothing has changed, or only the confirmation was lost.
  pub insert_order-Uploads :
      (s : pg.Server)
      → let (r, s') = insert_order pg user_id number s in
        Uploads user_id number (pg.tables s) r (pg.tables s')
  unfolding insert_order
  insert_order-Uploads s =
      let (env, outcome) = laws.query_answers ℕ (insert_order_stmt user_id number) s in
      let t = pg.tables s in
      elim (Bool-cases (any (clashes env.new_id number) t.orders)) [
        | inl clash ↦
            let e = insert_clash user_id number env t clash in
            let kept = ap (λ (x : Result ℕ × Tables). x.1) e in
            elim outcome [
              | inl (reply, done) ↦
                  rw (reply ∙ ap (λ (x : Result ℕ × Tables). x.0) e) (
                    clash_cases (pg.query ℕ (insert_order_stmt user_id number) s).1 t (done ∙ kept))
              | inr (n, reply, inl done) ↦
                  rw reply (unfold on_insert_error in failed _ refl (refl, refl, refl) done)
              | inr (n, reply, inr done) ↦
                  rw reply
                    (unfold on_insert_error in failed _ refl (refl, refl, refl) (done ∙ kept))
            ]
        | inr open_number ↦ elim (Bool-cases (has_user user_id t)) [
          | inr stranger ↦
              let e = insert_stranger user_id number env t open_number stranger in
              let kept = ap (λ (x : Result ℕ × Tables). x.1) e in
              elim outcome [
                | inl (reply, done) ↦
                    rw (reply ∙ ap (λ (x : Result ℕ × Tables). x.0) e)
                      (unfold on_insert_error in failed _ refl (refl, refl, refl) (done ∙ kept))
                | inr (n, reply, inl done) ↦
                    rw reply (unfold on_insert_error in failed _ refl (refl, refl, refl) done)
                | inr (n, reply, inr done) ↦
                    rw reply
                      (unfold on_insert_error in failed _ refl (refl, refl, refl) (done ∙ kept))
              ]
          | inl member ↦
              let e = insert_free user_id number env t open_number member in
              let free = find-none env.new_id number t.orders open_number in
              let kept = ap (λ (x : Result ℕ × Tables). x.1) e in
              elim outcome [
                | inl (reply, done) ↦
                    rw (reply ∙ ap (λ (x : Result ℕ × Tables). x.0) e)
                      (accepted free member env.new_id env.now refl (done ∙ kept))
                | inr (n, reply, inl done) ↦
                    rw reply (unfold on_insert_error in failed _ refl (refl, refl, refl) done)
                | inr (n, reply, inr done) ↦ rw reply (
                    unfold on_insert_error in
                    unconfirmed free env.new_id env.now _ refl (refl, refl, refl) (done ∙ kept))
              ]
        ]
      ]
