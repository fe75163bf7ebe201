-- ===== src/Worker/Wiring.antt =====
-- The pool over the repositories, as cmd/gophermart/di/app.go builds it: the database is the server of
-- the world, the accrual system and the clock are the rest.
use loyalty_system.Prelude.{some}
use loyalty_system.Prelude.Int.{ℤ}
use loyalty_system.Pg.{Pg}
use loyalty_system.World.{World, on_server, on_rest}
use loyalty_system.AccrualClient.{Provider}
use loyalty_system.Order.{get_order_by_id, select_pending_orders, update_order_accrual}
use loyalty_system.Balance.Service.{repo_of, service_credit}
use loyalty_system.Worker.{Deps}

-- What the pool is given besides the database.
pub record Outside (E : Type 0) : Type 0 where
  pub client : Provider E
  pub poll_batch : ℤ
  pub now : E → ℤ
  pub sleep : ℤ → E → E

abbrev pub deps_of : {E : Type 0} → (pg : Pg) → Outside E → Deps (World pg.Server E)
deps_of pg out = record {
  repo = record {
    select_pending_orders = λ n. on_server (select_pending_orders pg n);
    get_order_by_id = λ id. on_server (get_order_by_id pg id);
    update_order_accrual =
        λ id status accrual. on_server (update_order_accrual pg id status accrual);
  };
  client = record { get_order_info = λ number. on_rest (out.client.get_order_info number) };
  balance = some (record {
    credit_accrual =
        λ user_id order_id amount. on_server (service_credit (repo_of pg) user_id order_id amount);
  });
  poll_batch = out.poll_batch;
  now = λ w. out.now w.rest;
  sleep = λ wait w. record w { rest = out.sleep wait w.rest };
}
