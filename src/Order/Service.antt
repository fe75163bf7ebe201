-- ===== src/Order/Service.antt =====
-- internal/order/service.go: an upload is checked, stored and handed to the worker pool.
use loyalty_system.Prelude.{ℕ, Option, none, some, List, Text, not, if◌then◌else◌}
use loyalty_system.Errors.{sentinel, invalid_order_number, Result, ok, err, Exec, raise, ◌>>=◌}
use loyalty_system.Luhn.{valid}
use loyalty_system.Pg.{Pg, new}
use loyalty_system.Order.{Order, insert_order, select_orders}
use loyalty_system.Worker.{OrderJob, State, on_world, enqueue}

pub record RepoProvider (W : Type 0) : Type 0 where
  pub insert_order : ℕ → Text → Exec W ℕ
  pub select_orders : ℕ → Exec W (List Order)

-- `AccrualEnqueuer` of internal/order/worker.go
pub record AccrualEnqueuer (W : Type 0) : Type 0 where
  pub enqueue : OrderJob → W → W

pub record Service (W : Type 0) : Type 0 where
  pub repo : RepoProvider W
  pub accrual : Option (AccrualEnqueuer W)

-- `SelectOrders` passes the orders or the error on.
abbrev pub listed : Result (List Order) → Result (List Order)
listed (ok orders) = ok orders
listed (err e) = err e

module _ {W : Type 0} where
  abbrev pub enqueue_with : Option (AccrualEnqueuer W) → OrderJob → Exec W (Unit {0})
  enqueue_with none job w = (ok tt, w)
  enqueue_with (some accrual) job w = (ok tt, accrual.enqueue job w)

  unfoldable pub create_order : Service W → ℕ → Text → Exec W (Unit {0})
  create_order s user_id order_number =
      if not (valid order_number) then raise (sentinel invalid_order_number) else (do
        order_id ← s.repo.insert_order user_id order_number
        enqueue_with s.accrual
            (record { id = order_id; user_id = user_id; number = order_number; status = new }))

  unfoldable pub service_orders : Service W → ℕ → Exec W (List Order)
  service_orders s user_id w = let (r, w') = s.repo.select_orders user_id w in (listed r, w')

-- The service of cmd/gophermart/di/app.go: over the repository and the pool.
abbrev pub service_of : (pg : Pg) → Service (State pg.Server)
service_of pg = record {
  repo = record {
    insert_order = λ user_id number. on_world (insert_order pg user_id number);
    select_orders = λ user_id. on_world (select_orders pg user_id);
  };
  accrual = some (record { enqueue = λ job s. record s { pool = enqueue job s.pool } });
}
