-- ===== src/Worker/Update.antt =====
-- `applyAccrualUpdate` of internal/order/worker.go over the repositories: what a poll's answer leaves
-- in the tables, on every path.
use loyalty_system.Prelude.{
  ℕ, ◌≡◌, refl, subst, ◌⊎◌, inl, inr, true, false, ◌&&◌, arith, some, Bool-cases,
}
use loyalty_system.Prelude.Int.{pos, ltb_ℤ, eqb_ℤ→eq}
use loyalty_system.Errors.{Error, wrap, foreign, Result, ok, err, Result-cases, continue, ◌>>◌}
use loyalty_system.Pg.{Pg, PgLaws, Tables, OrderRow, Status, new, processing, invalid, processed}
use loyalty_system.World.{World}
use loyalty_system.AccrualClient.{OrderInfo}
use loyalty_system.Order.{
  Order, to_struct, coalesce, status_eq, get_order_by_id, update_order_accrual,
}
use loyalty_system.Order.Accrual.{
  unknown_error, IsForeign, apply_accrual_info, apply_accrual_info-unknown,
}
use loyalty_system.Balance.{credit_accrual}
use loyalty_system.Balance.Credit.{Credits, credit_accrual-Credits}
use loyalty_system.Worker.{
  OrderJob, State, is_unchanged, is_credit_due, requeue, apply_accrual_update, store_update,
  credit_with, on_pool,
}
use loyalty_system.Worker.Stores.{
  IsUnread, row_of, updated_orders, Stores, stored, not_stored, update_order_accrual-Stores,
  get_order_by_id-cases,
}
use loyalty_system.Worker.Wiring.{Outside, deps_of}

-- How `applyAccrualUpdate` ends, and what it leaves in the tables.
pub data Applies (job : OrderJob) (info : OrderInfo) (t : Tables) (r : Result (Unit {0}))
    (t' : Tables) : Type 0 where
  -- there is no such order, or the server failed to read it
  unread : (e : Error) → r ≡ err e → IsUnread job.id t e → t' ≡ t → Applies job info t r t'
  -- the status of the answer is none of the four
  unknown_answer :
      (row : OrderRow)
      → row_of job.id t ≡ some row
      → IsForeign info.status
      → r ≡ err unknown_error
      → t' ≡ t
      → Applies job info t r t'
  -- the stored order is what the answer makes of it
  settled :
      (row : OrderRow) (changed : Order)
      → row_of job.id t ≡ some row
      → apply_accrual_info (to_struct row) info ≡ ok changed
      → (changed.status ≡ row.status) × (changed.accrual ≡ coalesce row.accrual)
      → r ≡ ok tt
      → t' ≡ t
      → Applies job info t r t'
  -- the update failed, or only its confirmation was lost
  not_updated :
      (row : OrderRow) (changed : Order)
      → row_of job.id t ≡ some row
      → apply_accrual_info (to_struct row) info ≡ ok changed
      → ¬ ((changed.status ≡ row.status) × (changed.accrual ≡ coalesce row.accrual))
      → (n : ℕ) → r ≡ err (wrap "failed to update order accrual" (foreign n))
      → (t' ≡ t) ⊎ (t' ≡ updated_orders job.id changed.status changed.accrual t)
      → Applies job info t r t'
  -- the order is updated, and no points are due
  only_updated :
      (row : OrderRow) (changed : Order)
      → row_of job.id t ≡ some row
      → apply_accrual_info (to_struct row) info ≡ ok changed
      → ¬ ((changed.status ≡ row.status) × (changed.accrual ≡ coalesce row.accrual))
      → (status_eq changed.status processed && ltb_ℤ (pos 0) changed.accrual) ≡ false
      → r ≡ ok tt
      → t' ≡ updated_orders job.id changed.status changed.accrual t
      → Applies job info t r t'
  -- the order is updated first, and then the points are credited, or not
  credit_tried :
      (row : OrderRow) (changed : Order)
      → row_of job.id t ≡ some row
      → apply_accrual_info (to_struct row) info ≡ ok changed
      → ¬ ((changed.status ≡ row.status) × (changed.accrual ≡ coalesce row.accrual))
      → (status_eq changed.status processed && ltb_ℤ (pos 0) changed.accrual) ≡ true
      → Credits job.user_id job.id changed.accrual
          (updated_orders job.id changed.status changed.accrual t)
          r
          t'
      → Applies job info t r t'

status_eq_sound : (a b : Status) → status_eq a b ≡ true → a ≡ b
status_eq_sound new new h = refl
status_eq_sound new processing h = absurd (ground arith)
status_eq_sound new invalid h = absurd (ground arith)
status_eq_sound new processed h = absurd (ground arith)
status_eq_sound processing new h = absurd (ground arith)
status_eq_sound processing processing h = refl
status_eq_sound processing invalid h = absurd (ground arith)
status_eq_sound processing processed h = absurd (ground arith)
status_eq_sound invalid new h = absurd (ground arith)
status_eq_sound invalid processing h = absurd (ground arith)
status_eq_sound invalid invalid h = refl
status_eq_sound invalid processed h = absurd (ground arith)
status_eq_sound processed new h = absurd (ground arith)
status_eq_sound processed processing h = absurd (ground arith)
status_eq_sound processed invalid h = absurd (ground arith)
status_eq_sound processed processed h = refl

unchanged-same :
    (current changed : Order)
    → is_unchanged current changed ≡ true
    → (changed.status ≡ current.status) × (changed.accrual ≡ current.accrual)
unchanged-same current changed h = (
  status_eq_sound changed.status current.status (ground arith),
  eqb_ℤ→eq changed.accrual current.accrual (ground arith),
)

unchanged_at :
    (current changed : Order)
    → changed.status ≡ current.status
    → changed.accrual ≡ current.accrual
    → is_unchanged current changed ≡ true
unchanged_at current changed a b = rw (a, b) (ground arith)

changed-differs :
    (current changed : Order)
    → is_unchanged current changed ≡ false
    → ¬ ((changed.status ≡ current.status) × (changed.accrual ≡ current.accrual))
changed-differs current changed h (a, b) = cc (unchanged_at current changed a b)

module _ {E : Type 0} (pg : Pg) (laws : PgLaws pg) (out : Outside E) (job : OrderJob)
    (info : OrderInfo) (t : Tables) where
  abbrev Ends : Result (Unit {0}) × State (World pg.Server E) → Type 0
  Ends (r, s') = Applies job info t r (pg.tables s'.world.server)

  module _ (row : OrderRow) (changed : Order) (held : row_of job.id t ≡ some row)
      (applied : apply_accrual_info (to_struct row) info ≡ ok changed) where
    credit_stage :
        ¬ ((changed.status ≡ row.status) × (changed.accrual ≡ coalesce row.accrual))
        → (r : Result (Unit {0})) (y : State (World pg.Server E)) → is_credit_due changed ≡ true
        → Credits job.user_id job.id changed.accrual
            (updated_orders job.id changed.status changed.accrual t)
            r
            (pg.tables y.world.server)
        → Ends (continue r (λ _. on_pool (requeue job changed)) y)
    credit_stage other (ok one) y due c = credit_tried row changed held applied other due c
    credit_stage other (err e) y due c = credit_tried row changed held applied other due c

    stored_stage :
        ¬ ((changed.status ≡ row.status) × (changed.accrual ≡ coalesce row.accrual))
        → (r : Result (Unit {0})) (y : State (World pg.Server E))
        → Stores job.id changed.status changed.accrual t r (pg.tables y.world.server)
        → Ends (
            continue r
              (λ _.
                credit_with (deps_of pg out) (deps_of pg out).balance job changed
                >> on_pool (requeue job changed))
              y)
    stored_stage other r y (not_stored n reply kept) =
        rw reply (not_updated row changed held applied other n refl kept)
    stored_stage other r y (stored reply kept) = elim (Bool-cases (is_credit_due changed)) [
      | inr free ↦ rw (reply, free) (only_updated row changed held applied other free refl kept)
      | inl due ↦
          rw (reply, due)
            (credit_stage other
              (credit_accrual pg job.user_id job.id changed.accrual y.world.server).0
              (record y {
                world = record y.world {
                  server = (credit_accrual pg job.user_id job.id changed.accrual y.world.server).1;
                };
              })
              due
              (subst
                (λ b.
                  Credits job.user_id job.id changed.accrual b
                    (credit_accrual pg job.user_id job.id changed.accrual y.world.server).0
                    (pg.tables
                      (credit_accrual pg job.user_id job.id changed.accrual y.world.server).1))
                kept
                (credit_accrual-Credits pg laws job.user_id job.id changed.accrual y.world.server)))
    ]

    store_stage :
        (x : State (World pg.Server E))
        → pg.tables x.world.server ≡ t
        → Ends (store_update (deps_of pg out) job (to_struct row) changed x)
    unfolding store_update
    store_stage x same = elim (Bool-cases (is_unchanged (to_struct row) changed)) [
      | inl unchanged ↦ rw unchanged (
          settled row changed held applied (unchanged-same (to_struct row) changed unchanged) refl
            same)
      | inr differs ↦
          let (r, server) =
            update_order_accrual pg job.id changed.status changed.accrual x.world.server in
          rw differs (
            stored_stage (changed-differs (to_struct row) changed differs) r
              (record x { world = record x.world { server = server } })
              (subst (λ b. Stores job.id changed.status changed.accrual b r (pg.tables server)) same
                (update_order_accrual-Stores pg laws job.id x.world.server changed.status
                  changed.accrual)))
    ]

-- Applying an answer to a job ends in one of six ways. The order cannot be read, because there is none
-- or the server fails, or the answer's status is none of the four: an error that says so, and no change.
-- The order stands already as the answer makes it: it succeeds with no change, and nothing is credited.
-- Otherwise the order's update fails, or is not confirmed; or the order is updated and no points are due;
-- or the order is updated and then the credit of its points is tried, whose result is the result.
pub apply_accrual_update-Applies :
    {E : Type 0} (pg : Pg) (laws : PgLaws pg) (out : Outside E) (job : OrderJob) (info : OrderInfo)
    (s : State (World pg.Server E))
    → let (r, s') = apply_accrual_update (deps_of pg out) job info s in
      Applies job info (pg.tables s.world.server) r (pg.tables s'.world.server)
unfolding apply_accrual_update
apply_accrual_update-Applies pg laws out job info s =
    let (kept, found) = get_order_by_id-cases pg laws job.id s.world.server in
    let server = (get_order_by_id pg job.id s.world.server).1 in
    elim found [
      | inr (e, reply, why) ↦ rw reply (unread e refl why kept)
      | inl (row, held, reply) ↦ elim (Result-cases (apply_accrual_info (to_struct row) info)) [
        | inr (e, unknown) ↦
            let (strange, same) = apply_accrual_info-unknown (to_struct row) info e unknown in
            rw (reply, unknown, same) (unknown_answer row held strange refl kept)
        | inl (changed, applied) ↦
            rw (reply, applied)
              (store_stage pg laws out job info (pg.tables s.world.server) row changed held applied
                (record s { world = record s.world { server = server } }) kept)
      ]
    ]
