-- ===== src/Order/Responses.antt =====
-- The endpoints of internal/order/handler.go over the service, the repository and the pool: the
-- status of each response, and what the request leaves in the tables and the queue.
use loyalty_system.Prelude.{
  ℕ, ◌≡◌, ◌≢◌, refl, ◌⊎◌, inl, inr, true, false, none, some, ◌∷◌, Text, Bool-cases,
}
use loyalty_system.Errors.{sentinel, invalid_order_number, continue, Result, ok, err}
use loyalty_system.Luhn.{valid}
use loyalty_system.Pg.{Pg, PgLaws, Tables, OrderRow, new, has_user}
use loyalty_system.Order.{new_row, insert_order}
use loyalty_system.Order.Upload.{
  holder, Uploads, accepted, held_by_user, held_by_other, failed, unconfirmed, insert_order-Uploads,
}
use loyalty_system.Worker.{Pool, State, OrderJob, enqueue}
use loyalty_system.Order.Service.{service_of, create_order}
use loyalty_system.Order.Handler.{created}

abbrev pub job_of : ℕ → Text → ℕ → OrderJob
job_of user_id number id = record { id = id; user_id = user_id; number = number; status = new }

-- How an upload is answered, and what it leaves in the tables and the pool.
pub data Responds (user_id : ℕ) (number : Text) (t : Tables) (p : Pool) (status : ℕ) (t' : Tables)
    (p' : Pool) : Type 0 where
  unprocessable :
      valid number ≡ false
      → status ≡ 422
      → t' ≡ t
      → p' ≡ p
      → Responds user_id number t p status t' p'
  created_new :
      valid number ≡ true
      → holder number t ≡ none
      → has_user user_id t ≡ true
      → (id now : ℕ) → status ≡ 202
      → t' ≡ record t { orders = new_row user_id number id now ∷ t.orders }
      → p' ≡ enqueue (job_of user_id number id) p
      → Responds user_id number t p status t' p'
  own_again :
      valid number ≡ true
      → (row : OrderRow) → holder number t ≡ some row
      → row.user_id ≡ user_id
      → status ≡ 200
      → t' ≡ t
      → p' ≡ p
      → Responds user_id number t p status t' p'
  conflict :
      valid number ≡ true
      → (row : OrderRow) → holder number t ≡ some row
      → row.user_id ≢ user_id
      → status ≡ 409
      → t' ≡ t
      → p' ≡ p
      → Responds user_id number t p status t' p'
  broken :
      valid number ≡ true
      → status ≡ 500
      → (t' ≡ t)
        ⊎ ((id now : ℕ) × (holder number t ≡ none)
            × (t' ≡ record t { orders = new_row user_id number id now ∷ t.orders }))
      → p' ≡ p
      → Responds user_id number t p status t' p'

module _ (pg : Pg) (laws : PgLaws pg) (user_id : ℕ) (number : Text) (s : State pg.Server) where
  abbrev pub stored : Result ℕ → pg.Server → Result (Unit {0}) × State pg.Server
  stored (ok id) w =
      (ok tt, record s { pool = enqueue (job_of user_id number id) s.pool; world = w })
  stored (err e) w = (err e, record s { world = w })

  -- The service's result, from the repository's.
  stored_lem :
      (r : Result ℕ) (w : pg.Server)
      → continue {W = State pg.Server} {B = Unit {0}} r
          (λ id x. (ok tt, record x { pool = enqueue (job_of user_id number id) x.pool }))
          (record s { world = w })
        ≡ stored r w
  stored_lem (ok id) w = refl
  stored_lem (err e) w = refl

  pub create_order-stored :
      valid number ≡ true
      → let (r, w) = insert_order pg user_id number s.world in
        create_order (service_of pg) user_id number s ≡ stored r w
  unfolding create_order
  create_order-stored v = rw v (
      stored_lem (insert_order pg user_id number s.world).0
        (insert_order pg user_id number s.world).1)

  create_order-invalid :
      valid number ≡ false
      → create_order (service_of pg) user_id number s ≡ (err (sentinel invalid_order_number), s)
  unfolding create_order
  create_order-invalid v = rw v

  abbrev Answer : Result (Unit {0}) × State pg.Server → Type 0
  Answer (r, s') =
      Responds user_id number (pg.tables s.world) s.pool (created {A = Unit} r).status
        (pg.tables s'.world) s'.pool

  stored-Responds :
      (r : Result ℕ) (w : pg.Server)
      → valid number ≡ true
      → Uploads user_id number (pg.tables s.world) r (pg.tables w)
      → Answer (stored r w)
  stored-Responds r w v (accepted free member id now e kept) =
      rw e (created_new v free member id now refl kept refl)
  stored-Responds r w v (held_by_user row taken own e kept) =
      rw e (own_again v row taken own refl kept refl)
  stored-Responds r w v (held_by_other row taken other e kept) =
      rw e (conflict v row taken other refl kept refl)
  stored-Responds r w v (failed e reply (x, y, z) kept) =
      rw (reply, x, y, z) (broken v refl (inl kept) refl)
  stored-Responds r w v (unconfirmed free id now e reply (x, y, z) kept) =
      rw (reply, x, y, z) (broken v refl (inr (id, now, free, kept)) refl)

  pub service-Responds : Answer (create_order (service_of pg) user_id number s)
  service-Responds = elim (Bool-cases (valid number)) [
    | inl v ↦ rw (create_order-stored v) (
        stored-Responds (insert_order pg user_id number s.world).0
          (insert_order pg user_id number s.world).1 v
          (insert_order-Uploads pg laws user_id number s.world))
    | inr v ↦ rw (create_order-invalid v) (unprocessable v refl refl refl)
  ]
