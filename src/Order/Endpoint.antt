-- ===== src/Order/Endpoint.antt =====
-- `POST /api/user/orders` of internal/order/handler.go for any request at all.
use loyalty_system.Prelude.{ℕ, ◌≡◌, ◌≢◌, [], Text}
use loyalty_system.Prelude.Strings.{trim_space}
use loyalty_system.Errors.{unauthorized, sentinel, ok, err, done, fault}
use loyalty_system.Http.{Request}
use loyalty_system.User.Context.{user_id_from_context}
use loyalty_system.Pg.{Pg}
use loyalty_system.Worker.{State}
use loyalty_system.Order.Responses.{Responds}

-- How any request to upload an order is answered, and what it leaves in the world and the pool.
pub data Answers (pg : Pg) (r : Request) (s : State pg.Server) (status : ℕ) (s' : State pg.Server)
    : Type 0 where
  anonymous :
      user_id_from_context r.context ≡ err (sentinel unauthorized)
      → status ≡ 401
      → s' ≡ s
      → Answers pg r s status s'
  unreadable :
      (user_id n : ℕ)
      → user_id_from_context r.context ≡ ok user_id
      → r.body ≡ fault n
      → status ≡ 400
      → s' ≡ s
      → Answers pg r s status s'
  blank :
      (user_id : ℕ) (body : Text)
      → user_id_from_context r.context ≡ ok user_id
      → r.body ≡ done body
      → trim_space body ≡ []
      → status ≡ 400
      → s' ≡ s
      → Answers pg r s status s'
  handled :
      (user_id : ℕ) (body : Text)
      → user_id_from_context r.context ≡ ok user_id
      → r.body ≡ done body
      → trim_space body ≢ []
      → Responds user_id
          (trim_space body)
          (pg.tables s.world)
          s.pool
          status
          (pg.tables s'.world)
          s'.pool
      → Answers pg r s status s'
