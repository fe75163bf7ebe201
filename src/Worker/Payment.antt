-- ===== src/Worker/Payment.antt =====
-- Whether the points of a processed order reach the user: `applyAccrualUpdate` of
-- internal/order/worker.go, and the scanner that is to repeat what failed.
use loyalty_system.Prelude.{◌≡◌, true, false, some, arith}
use loyalty_system.Prelude.Int.{pos, leb_ℤ}
use loyalty_system.Errors.{ok}
use loyalty_system.Pg.{Pg, PgLaws, Tables, OrderRow}
use loyalty_system.World.{World}
use loyalty_system.AccrualClient.{OrderInfo}
use loyalty_system.Prelude.{ℕ, ◌||◌, ◌&&◌, ◌==◌, List, any}
use loyalty_system.Prelude.Int.{ℤ}
use loyalty_system.Pg.{Status, new, processing}
use loyalty_system.Order.Pending.{finished_not_pending, any-set_accrual}
use loyalty_system.Worker.Stores.{row_of, Stores, stored, not_stored, update_order_accrual-Stores}
use loyalty_system.Order.{
  coalesce, status_eq, is_pending, update_order_accrual, select_pending_orders,
}
use loyalty_system.Order.{Order, to_struct}
use loyalty_system.Order.Accrual.{apply_accrual_info}
use loyalty_system.Balance.Credit.{credited_already}
use loyalty_system.Balance.Ledger.Points.{Credits-credited_already}
use loyalty_system.Worker.{OrderJob, State, is_credit_due, apply_accrual_update}
use loyalty_system.Worker.Wiring.{Outside, deps_of}
use loyalty_system.Worker.Update.{
  Applies, unread, unknown_answer, settled, not_updated, only_updated, credit_tried,
  apply_accrual_update-Applies,
}

due-positive : (o : Order) → is_credit_due o ≡ true → leb_ℤ o.accrual (pos 0) ≡ false
due-positive o h = ground arith

-- If an answer that makes points due for an order is applied without an error, then the order has been
-- credited, unless it stood in the table with that status and those points before.
pub apply_accrual_update_pays :
    {E : Type 0} (pg : Pg) (laws : PgLaws pg) (out : Outside E) (job : OrderJob) (info : OrderInfo)
    (s : State (World pg.Server E)) (row : OrderRow) (changed : Order)
    → row_of job.id (pg.tables s.world.server) ≡ some row
    → apply_accrual_info (to_struct row) info ≡ ok changed
    → is_credit_due changed ≡ true
    → ¬ ((changed.status ≡ row.status) × (changed.accrual ≡ coalesce row.accrual))
    → (apply_accrual_update (deps_of pg out) job info s).0 ≡ ok tt
    → credited_already job.id
        (pg.tables (apply_accrual_update (deps_of pg out) job info s).1.world.server)
      ≡ true
apply_accrual_update_pays pg laws out job info s row changed held applied due differs success =
    go (apply_accrual_update-Applies pg laws out job info s)
  where
    t' : Tables
    t' = pg.tables (apply_accrual_update (deps_of pg out) job info s).1.world.server

    same_row : (row' : OrderRow) → row_of job.id (pg.tables s.world.server) ≡ some row' → row' ≡ row
    same_row row' h = cc

    same_changed :
        (row' : OrderRow) (changed' : Order)
        → row' ≡ row
        → apply_accrual_info (to_struct row') info ≡ ok changed'
        → changed' ≡ changed
    same_changed row' changed' e a = cc

    go :
        Applies job info
          (pg.tables s.world.server)
          (apply_accrual_update (deps_of pg out) job info s).0
          t'
        → credited_already job.id t' ≡ true
    go (unread e reply why kept) = cc
    go (unknown_answer row' h strange reply kept) = cc
    go (settled row' changed' h a same reply kept) =
        let r = same_row row' h in
        let c = same_changed row' changed' r a in absurd (differs (rw (r, c) at same))
    go (not_updated row' changed' h a other n reply kept) = cc
    go (only_updated row' changed' h a other free reply kept) =
        let r = same_row row' h in let c = same_changed row' changed' r a in cc
    go (credit_tried row' changed' h a other d c) =
        Credits-credited_already c (due-positive changed' d) success

-- Once `UpdateOrderAccrual` has stored an order with a status that is not NEW or PROCESSING, the
-- scanner's query does not return the order, whether its points have been credited or not.
pub stored_final-not_pending :
    (pg : Pg) (laws : PgLaws pg) (id : ℕ) (status : Status) (accrual : ℤ) (s : pg.Server) (n : ℤ)
    (orders : List Order)
    → (update_order_accrual pg id status accrual s).0 ≡ ok tt
    → (status_eq status new || status_eq status processing) ≡ false
    → (select_pending_orders pg n (update_order_accrual pg id status accrual s).1).0 ≡ ok orders
    → any (λ o. o.id == id) orders ≡ false
stored_final-not_pending pg laws id status accrual s n orders success final reply =
    finished_not_pending pg laws n (update_order_accrual pg id status accrual s).1 id orders
      (finished (update_order_accrual-Stores pg laws id s status accrual)) reply
  where
    finished :
        Stores id status accrual
          (pg.tables s)
          (update_order_accrual pg id status accrual s).0
          (pg.tables (update_order_accrual pg id status accrual s).1)
        → any
            (λ row. is_pending row && (row.id == id))
            (pg.tables (update_order_accrual pg id status accrual s).1).orders
          ≡ false
    finished (stored e after) =
        rw after (any-set_accrual id status accrual (pg.tables s).orders final)
    finished (not_stored e failed after) = cc
