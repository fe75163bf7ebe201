-- ===== src/Order/Accepted.antt =====
-- On a server that does not fail, `POST /api/user/orders` of internal/order/handler.go takes a new order.
use loyalty_system.Prelude.{
  ℕ, ◌≡◌, refl, ap, ◌∙◌, false, true, none, List, [], ◌∷◌, Text, text_eq, any, find, ◌==◌, arith,
}
use loyalty_system.Prelude.Strings.{trim_space}
use loyalty_system.Errors.{Result, ok, done}
use loyalty_system.Luhn.{valid}
use loyalty_system.Http.{Request}
use loyalty_system.User.Context.{user_id_from_context}
use loyalty_system.Pg.{Pg, Tables, OrderRow, has_user}
use loyalty_system.Pg.Reliable.{IsReliable, reliable_laws}
use loyalty_system.Worker.{State, enqueue}
use loyalty_system.Worker.Scan.{IsCovered, try_enqueue-IsCovered}
use loyalty_system.Order.{clashes, new_row, insert_order_stmt, insert_order}
use loyalty_system.Order.Upload.{holder, insert_free}
use loyalty_system.Order.Service.{service_of}
use loyalty_system.Order.Handler.{create_order_handler}
use loyalty_system.Order.Responses.{job_of, create_order-stored}

no_clash :
    (id : ℕ) (number : Text) (rows : List OrderRow)
    → any (λ row. row.id == id) rows ≡ false
    → find (λ row. text_eq row.number number) rows ≡ none
    → any (clashes id number) rows ≡ false
no_clash id number [] h k = refl
no_clash id number (row ∷ rows) h k = ground (arith, no_clash id number rows)

-- The id that the server gives to the order.
abbrev pub given_id : (pg : Pg) → IsReliable pg → (user_id : ℕ) → Text → pg.Server → ℕ
given_id pg reliable user_id number s =
    (reliable.queries ℕ (insert_order_stmt user_id number) s).0.new_id

module _ (pg : Pg) (reliable : IsReliable pg) (user_id : ℕ) (number : Text) (s : pg.Server)
    (new_id : any (λ row. row.id == given_id pg reliable user_id number s) (pg.tables s).orders
      ≡ false)
    (free : holder number (pg.tables s) ≡ none)
    (member : has_user user_id (pg.tables s) ≡ true) where
  insert_order-succeeds :
      let (r, s') = insert_order pg user_id number s in
      let id = given_id pg reliable user_id number s in
      (r ≡ ok id)
      × (now : ℕ) × (pg.tables s'
          ≡ record (pg.tables s) { orders = new_row user_id number id now ∷ (pg.tables s).orders })
  unfolding insert_order
  insert_order-succeeds =
      let (env, reply, after) = reliable.queries ℕ (insert_order_stmt user_id number) s in
      let e =
        insert_free user_id number env (pg.tables s)
          (no_clash env.new_id number (pg.tables s).orders new_id free) member in
      rw (reply ∙ ap (λ (x : Result ℕ × Tables). x.0) e)
        (refl, env.now, after ∙ ap (λ (x : Result ℕ × Tables). x.1) e)

-- On a server that does not fail and gives the order an id that no order has, a user with an account who
-- uploads a number that passes the Luhn check and that nobody holds is answered 202: the order is stored as NEW, with no
-- other change to the tables, and is in flight to the worker pool, unless the queue is full.
pub fresh_upload_accepted :
    (pg : Pg) (reliable : IsReliable pg) (s : State pg.Server) (r : Request) (user_id : ℕ)
    (body : Text)
    → user_id_from_context r.context ≡ ok user_id
    → r.body ≡ done body
    → text_eq (trim_space body) [] ≡ false
    → valid (trim_space body) ≡ true
    → holder (trim_space body) (pg.tables s.world) ≡ none
    → has_user user_id (pg.tables s.world) ≡ true
    → any
        (λ row. row.id == given_id pg reliable user_id (trim_space body) s.world)
        (pg.tables s.world).orders
      ≡ false
    → let (response, s') = create_order_handler (service_of pg) {A = Unit} r s in
      let id = given_id pg reliable user_id (trim_space body) s.world in
      (response.status ≡ 202)
      × IsCovered id s'.pool
      × (now : ℕ) × (pg.tables s'.world ≡ record (pg.tables s.world) {
        orders = new_row user_id (trim_space body) id now ∷ (pg.tables s.world).orders;
      })
unfolding create_order_handler enqueue
fresh_upload_accepted pg reliable s r user_id body known readable given v free member new_id =
    let number = trim_space body in
    let (reply, now, after) =
      insert_order-succeeds pg reliable user_id number s.world new_id free member in
    rw
      (
        known,
        readable,
        given,
        create_order-stored pg (reliable_laws pg reliable) user_id number s v,
        reply,
      )
      (
        refl,
        try_enqueue-IsCovered (job_of user_id number (given_id pg reliable user_id number s.world))
            s.pool,
        now,
        after,
      )
