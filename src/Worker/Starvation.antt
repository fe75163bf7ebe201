-- ===== src/Worker/Starvation.antt =====
-- `scanPending` of internal/order/worker.go over the repository: an order behind enough older unfinished
-- ones is not polled again.
use loyalty_system.Prelude.{
  ℕ, ◌≤◌, ◌≡◌, false, inl, inr, ◌&&◌, ◌||◌, List, [], ◌∷◌, any, ltb, ◌==◌, arith,
}
use loyalty_system.Errors.{Result-cases}
use loyalty_system.Pg.{Pg, PgLaws, new, processing}
use loyalty_system.World.{World}
use loyalty_system.Order.{Order, status_eq, effective_limit, select_pending_orders}
use loyalty_system.Order.Starvation.{count, starved_not_selected}
use loyalty_system.Worker.{
  OrderJob, Pool, Deps, State, is_inflight, order_to_job, try_enqueue, enqueue_all, scan_pending,
}
use loyalty_system.Worker.Requeue.{try_enqueue_cases}
use loyalty_system.Worker.Wiring.{Outside, deps_of}

try_enqueue_other :
    (id : ℕ) (job : OrderJob) (p : Pool)
    → (job.id == id) ≡ false
    → is_inflight id p ≡ false
    → is_inflight id (try_enqueue job p).1 ≡ false
try_enqueue_other id job p other h = elim (try_enqueue_cases job p) [
  | inl (held, e) ↦ rw e h
  | inr (inl (free, room, e)) ↦ rw e (rw other h)
  | inr (inr (free, full, e)) ↦ rw e h
]

enqueue_all_other :
    {W : Type 0} (d : Deps W) (id : ℕ) (orders : List Order) (p : Pool)
    → any (λ o. o.id == id) orders ≡ false
    → is_inflight id p ≡ false
    → is_inflight id (enqueue_all d orders p) ≡ false
enqueue_all_other d id [] p none_mine h = h
enqueue_all_other d id (o ∷ rest) p none_mine h =
    let other : (o.id == id) ≡ false = ground arith in
    let later : any (λ o. o.id == id) rest ≡ false = ground arith in
    enqueue_all_other d id rest (try_enqueue (order_to_job o) p).1 later
      (try_enqueue_other id (order_to_job o) p other h)

-- As long as as many unfinished orders as the batch of the scanner holds are older than an order that is
-- not in flight, a scan does not put the order in flight, whatever the database answers.
pub starved_not_scanned :
    {E : Type 0} (pg : Pg) (laws : PgLaws pg) (out : Outside E) (s : State (World pg.Server E))
    (id uploaded_at : ℕ)
    → any
        (λ row. (row.id == id) && ltb row.uploaded_at uploaded_at)
        (pg.tables s.world.server).orders
      ≡ false
    → effective_limit pg out.poll_batch
      ≤ count
          (λ row.
            (status_eq row.status new || status_eq row.status processing)
            && ltb row.uploaded_at uploaded_at)
          (pg.tables s.world.server).orders
    → is_inflight id s.pool ≡ false
    → is_inflight id (scan_pending (deps_of pg out) s).pool ≡ false
unfolding scan_pending
starved_not_scanned pg laws out s id u young enough idle =
    elim (Result-cases (select_pending_orders pg out.poll_batch s.world.server).0) [
      | inr (e, failed) ↦ rw failed idle
      | inl (orders, reply) ↦ rw reply (
          enqueue_all_other (deps_of pg out) id orders s.pool
            (starved_not_selected pg laws out.poll_batch s.world.server id u orders young enough
              reply)
            idle)
    ]
