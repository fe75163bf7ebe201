-- ===== src/Worker/Journey.antt =====
-- From the upload of an order to the points for it: internal/order/handler.go, internal/order/worker.go and
-- internal/balance/repo.go on a database that does not fail.
use loyalty_system.Prelude.{
  ℕ, ◌≡◌, refl, ap, ◌∙◌, sym, inl, inr, true, false, none, some, [], ◌∷◌, Text, text_eq, any, ◌==◌,
  ==_refl, if◌then◌else◌, arith, Bool-cases,
}
use loyalty_system.Prelude.Int.{ℤ, pos, ◌+ℤ◌, leb_ℤ, ltb_ℤ, eqb_ℤ, ◌-ℤ◌}
use loyalty_system.Prelude.Strings.{trim_space}
use loyalty_system.Errors.{Result, ok, done}
use loyalty_system.Luhn.{valid}
use loyalty_system.Http.{Request}
use loyalty_system.User.Context.{user_id_from_context}
use loyalty_system.Pg.{Pg, Tables, OrderRow, has_user, new, processed}
use loyalty_system.Pg.Reliable.{IsReliable}
use loyalty_system.Pg.Lookup.{row_reply}
use loyalty_system.World.{World}
use loyalty_system.AccrualClient.{OrderInfo, status_processed}
use loyalty_system.Order.{
  Order, to_struct, new_row, get_order_by_id, order_by_id_query, update_order_accrual,
  update_accrual_stmt,
}
use loyalty_system.Order.Accrual.{apply_accrual_info, map_processed, poll_order}
use loyalty_system.Order.Upload.{holder}
use loyalty_system.Order.Accepted.{given_id, fresh_upload_accepted}
use loyalty_system.Order.Service.{service_of}
use loyalty_system.Order.Handler.{create_order_handler}
use loyalty_system.Order.Responses.{job_of}
use loyalty_system.Balance.Credit.{credited_already, credited}
use loyalty_system.Balance.Success.{credit_accrual-succeeds}
use loyalty_system.Balance.Ledger.{current_of}
use loyalty_system.Balance.Ledger.Upsert.{current_of-upsert}
use loyalty_system.Worker.{
  OrderJob, State, is_unchanged, is_credit_due, apply_accrual_update, store_update, wait_rate_limit,
  process_job,
}
use loyalty_system.Worker.Wiring.{Outside, deps_of}
use loyalty_system.Worker.Paid.{process_paid}
use loyalty_system.Worker.Stores.{row_of, updated_orders, by_id_lem, update_lem}
mod Tests

-- On a database that does not fail and gives the order an id of its own, which no order and no accrual
-- has: once a user with an account has uploaded a number that passes the Luhn check and that nobody holds, and a worker
-- has processed its job, to which the accrual system answers that it is processed with an amount above
-- zero, the order is stored as PROCESSED with the amount, and the user has the amount more in points,
-- while nobody else's points have changed.
pub uploaded_order_is_paid :
    {E : Type 0} (pg : Pg) (reliable : IsReliable pg) (out : Outside E)
    (s : State (World pg.Server E)) (r : Request) (user_id : ℕ) (body : Text) (info : OrderInfo)
    (amount : ℤ) (v : ℕ)
    → user_id_from_context r.context ≡ ok user_id
    → r.body ≡ done body
    → text_eq (trim_space body) [] ≡ false
    → valid (trim_space body) ≡ true
    → holder (trim_space body) (pg.tables s.world.server) ≡ none
    → has_user user_id (pg.tables s.world.server) ≡ true
    → let id = given_id pg reliable user_id (trim_space body) s.world.server in
      any (λ row. row.id == id) (pg.tables s.world.server).orders ≡ false
      → credited_already
          (given_id pg reliable user_id (trim_space body) s.world.server)
          (pg.tables s.world.server)
        ≡ false
      → ((e : E) → (out.client.get_order_info (trim_space body) e).0 ≡ ok info)
      → info.status ≡ status_processed
      → info.accrual ≡ some amount
      → ltb_ℤ (pos 0) amount ≡ true
      → let id = given_id pg reliable user_id (trim_space body) s.world.server in
        let uploaded =
          (create_order_handler
            (service_of pg)
            {A = Unit}
            r
            (record { pool = s.pool; world = s.world.server })).1 in
        let after =
          process_job
            (deps_of pg out)
            (job_of user_id (trim_space body) id)
            (record { pool = uploaded.pool; world = record s.world { server = uploaded.world } }) in
        (now : ℕ) × (row_of id (pg.tables after.world.server)
          ≡ some (record (new_row user_id (trim_space body) id now) {
            status = processed;
            accrual = some amount;
          }))
        × (current_of v (pg.tables after.world.server).user_balance ≡ (
            if user_id == v
            then current_of v (pg.tables s.world.server).user_balance +ℤ amount
            else current_of v (pg.tables s.world.server).user_balance))
uploaded_order_is_paid pg reliable out s r user_id body info amount v known readable given right
      free member new_id uncredited answers said points positive =
    let number = trim_space body in
    let id = given_id pg reliable user_id number s.world.server in
    let before : State pg.Server = record { pool = s.pool; world = s.world.server } in
    let t = pg.tables s.world.server in
    let (accepted, covered, now, stored) =
      fresh_upload_accepted pg reliable before r user_id body known readable given right free member
        new_id in
    let uploaded = (create_order_handler (service_of pg) {A = Unit} r before).1 in
    let row = new_row user_id number id now in
    let held : row_of id (pg.tables uploaded.world) ≡ some row =
      ap (row_of id) stored ∙ rw (==_refl id) refl in
    let (paid_at, tables) =
      process_paid pg reliable out (job_of user_id number id) amount positive info row
        (record { pool = uploaded.pool; world = record s.world { server = uploaded.world } })
        answers said points held refl (ap (has_user user_id) stored ∙ member)
        (ap (credited_already id) stored ∙ uncredited) in
    let final =
      tables
      ∙ ap (λ x. credited user_id id amount paid_at (updated_orders id processed amount x))
          stored in
    (
      now,
      ap (row_of id) final ∙ rw (==_refl id) (rw (==_refl id) refl),
      ap (λ (x : Tables). current_of v x.user_balance) final
          ∙ current_of-upsert user_id amount v t.user_balance,
    )
