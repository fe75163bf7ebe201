-- ===== src/Worker/Paid.antt =====
-- On a database that does not fail, `processJob` of internal/order/worker.go for a new order that the
-- accrual system has processed: the points are stored and credited.
use loyalty_system.Prelude.{
  ℕ, ◌≡◌, refl, ap, ◌∙◌, inl, inr, true, false, ◌&&◌, some, List, [], ◌∷◌, find, any, ◌==◌,
  Bool-cases, arith,
}
use loyalty_system.Prelude.Int.{ℤ, pos, leb_ℤ, ltb_ℤ}
use loyalty_system.Errors.{Result, ok}
use loyalty_system.Pg.{Pg, Tables, Status, OrderRow, new, processed, update, has_user, has_order}
use loyalty_system.Pg.Reliable.{IsReliable}
use loyalty_system.Pg.Lookup.{row_reply}
use loyalty_system.World.{World}
use loyalty_system.AccrualClient.{OrderInfo, status_processed}
use loyalty_system.Order.{
  Order, to_struct, get_order_by_id, order_by_id_query, update_order_accrual, update_accrual_stmt,
}
use loyalty_system.Order.Accrual.{apply_accrual_info, map_processed, poll_order}
use loyalty_system.Balance.Credit.{credited_already, credited}
use loyalty_system.Balance.Success.{credit_accrual-succeeds}
use loyalty_system.Worker.{
  OrderJob, State, is_unchanged, is_credit_due, apply_accrual_update, store_update, wait_rate_limit,
  process_job,
}
use loyalty_system.Worker.Wiring.{Outside, deps_of}
use loyalty_system.Worker.Stores.{row_of, updated_orders, by_id_lem, update_lem}

has_order-updated :
    (id : ℕ) (status : Status) (accrual : ℤ) (rows : List OrderRow) (row : OrderRow)
    → find (λ row. row.id == id) rows ≡ some row
    → any
        (λ row. row.id == id)
        (update
          (λ row. row.id == id)
          (λ row. record row { status = status; accrual = some accrual })
          rows)
      ≡ true
has_order-updated id status accrual [] row h = cc
has_order-updated id status accrual (r ∷ rows) row h = elim (Bool-cases (r.id == id)) [
  | inl mine ↦ rw (mine, mine) refl
  | inr other ↦
      let later : find (λ row. row.id == id) rows ≡ some row = rw other at h in
      rw (other, other) (has_order-updated id status accrual rows row later)
]

module _ {E : Type 0} (pg : Pg) (reliable : IsReliable pg) (out : Outside E) (job : OrderJob)
    (amount : ℤ) (positive : ltb_ℤ (pos 0) amount ≡ true) where
  -- The order as the answer makes it.
  abbrev paid_order : OrderRow → Order
  paid_order row = record (to_struct row) { status = processed; accrual = amount }

  store_paid :
      (row : OrderRow) (s : State (World pg.Server E))
      → row_of job.id (pg.tables s.world.server) ≡ some row
      → row.status ≡ new
      → has_user job.user_id (pg.tables s.world.server) ≡ true
      → credited_already job.id (pg.tables s.world.server) ≡ false
      → let s' = (store_update (deps_of pg out) job (to_struct row) (paid_order row) s).1 in
        (now : ℕ) × (pg.tables s'.world.server
          ≡ credited job.user_id job.id amount now
              (updated_orders job.id processed amount (pg.tables s.world.server)))
  unfolding store_update update_order_accrual
  store_paid row s held fresh member uncredited =
      let t = pg.tables s.world.server in
      let stmt = update_accrual_stmt job.id processed amount in
      let differs : is_unchanged (to_struct row) (paid_order row) ≡ false = rw fresh refl in
      let due : is_credit_due (paid_order row) ≡ true = positive in
      let (env, reply, after) = reliable.queries Unit stmt s.world.server in
      let srv = (pg.query Unit stmt s.world.server).1 in
      let e = update_lem job.id processed amount env t in
      let stored = reply ∙ ap (λ (x : Result Unit × Tables). x.0) e in
      let now_stored : pg.tables srv ≡ updated_orders job.id processed amount t =
        after ∙ ap (λ (x : Result Unit × Tables). x.1) e in
      let uncredited' : credited_already job.id (pg.tables srv) ≡ false =
        ap (credited_already job.id) now_stored ∙ uncredited in
      let keyed : (has_order job.id (pg.tables srv) && has_user job.user_id (pg.tables srv))
          ≡ true =
        rw (now_stored, has_order-updated job.id processed amount t.orders row held, member) refl in
      let not_negative : leb_ℤ amount (pos 0) ≡ false = ground arith in
      let (paid, now, tables) =
        credit_accrual-succeeds pg reliable job.user_id job.id amount srv not_negative uncredited'
          keyed in
      (
        now,
        rw (differs, stored, due, paid)
            (tables ∙ ap (credited job.user_id job.id amount now) now_stored),
      )

  read_paid :
      (info : OrderInfo) (row : OrderRow)
      → info.status ≡ status_processed
      → info.accrual ≡ some amount
      → apply_accrual_info (to_struct row) info ≡ ok (paid_order row)
  unfolding apply_accrual_info
  read_paid info row said points = rw (apply_accrual_info, map_processed said, points) refl

  -- Applying the answer "PROCESSED".
  apply_paid :
      (info : OrderInfo) (row : OrderRow) (s : State (World pg.Server E))
      → info.status ≡ status_processed
      → info.accrual ≡ some amount
      → row_of job.id (pg.tables s.world.server) ≡ some row
      → row.status ≡ new
      → has_user job.user_id (pg.tables s.world.server) ≡ true
      → credited_already job.id (pg.tables s.world.server) ≡ false
      → let s' = (apply_accrual_update (deps_of pg out) job info s).1 in
        (now : ℕ) × (pg.tables s'.world.server
          ≡ credited job.user_id job.id amount now
              (updated_orders job.id processed amount (pg.tables s.world.server)))
  unfolding apply_accrual_update get_order_by_id
  apply_paid info row s said points held fresh member uncredited =
      let t = pg.tables s.world.server in
      let (env, reply, after) = reliable.queries Order (order_by_id_query job.id) s.world.server in
      let srv = (pg.query Order (order_by_id_query job.id) s.world.server).1 in
      let found =
        reply
        ∙ ap (λ (x : Result Order × Tables). x.0) (by_id_lem job.id env t)
        ∙ ap (row_reply to_struct) held in
      let same : pg.tables srv ≡ t =
        after ∙ ap (λ (x : Result Order × Tables). x.1) (by_id_lem job.id env t) in
      let (now, tables) =
        store_paid row (record s { world = record s.world { server = srv } })
          (ap (row_of job.id) same ∙ held) fresh (ap (has_user job.user_id) same ∙ member)
          (ap (credited_already job.id) same ∙ uncredited) in
      (
        now,
        rw (found, read_paid info row said points)
            (tables
              ∙ ap
                  (λ x.
                    credited job.user_id job.id amount now
                      (updated_orders job.id processed amount x))
                  same),
      )

  wait_rate_limit-server :
      (s : State (World pg.Server E))
      → (wait_rate_limit (deps_of pg out) s).world.server ≡ s.world.server
  unfolding wait_rate_limit
  wait_rate_limit-server s = ground arith

  -- A worker that has the job of a stored order and is answered "PROCESSED".
  pub process_paid :
      (info : OrderInfo) (row : OrderRow) (s : State (World pg.Server E))
      → ((e : E) → (out.client.get_order_info job.number e).0 ≡ ok info)
      → info.status ≡ status_processed
      → info.accrual ≡ some amount
      → row_of job.id (pg.tables s.world.server) ≡ some row
      → row.status ≡ new
      → has_user job.user_id (pg.tables s.world.server) ≡ true
      → credited_already job.id (pg.tables s.world.server) ≡ false
      → let s' = process_job (deps_of pg out) job s in
        (now : ℕ) × (pg.tables s'.world.server
          ≡ credited job.user_id job.id amount now
              (updated_orders job.id processed amount (pg.tables s.world.server)))
  unfolding process_job poll_order
  process_paid info row s answers said points held fresh member uncredited =
      let s1 = wait_rate_limit (deps_of pg out) s in
      let same = wait_rate_limit-server s in
      let same_tables : pg.tables s1.world.server ≡ pg.tables s.world.server = ap pg.tables same in
      let polled = out.client.get_order_info job.number s1.world.rest in
      let s2 : State (World pg.Server E) = record s1 {
        world = record s1.world { rest = polled.1 };
      } in
      let (now, tables) =
        apply_paid info row s2 said points (ap (row_of job.id) same_tables ∙ held) fresh
          (ap (has_user job.user_id) same_tables ∙ member)
          (ap (credited_already job.id) same_tables ∙ uncredited) in
      (
        now,
        rw (answers s1.world.rest) (
            tables
            ∙ ap
                (λ x.
                  credited job.user_id job.id amount now (updated_orders job.id processed amount x))
                same_tables),
      )
