-- ===== src/Worker/Scan.antt =====
-- `scanPending` of internal/order/worker.go: what becomes of the orders that it reads.
use loyalty_system.Prelude.{
  ℕ, ◌≤◌, ◌≡◌, refl, ◌⊎◌, inl, inr, true, [], ◌∷◌, List, length, ==_refl, arith,
}
use loyalty_system.Errors.{ok}
use loyalty_system.Order.{Order}
use loyalty_system.Worker.{
  OrderJob, Pool, Deps, State, is_inflight, order_to_job, try_enqueue, enqueue_all, scan_pending,
}
use loyalty_system.Worker.Requeue.{try_enqueue_cases}

-- The order is on its way, or there was no room.
abbrev pub IsCovered : (id : ℕ) → Pool → Type 0
IsCovered id p = (is_inflight id p ≡ true) ⊎ (p.capacity ≤ length p.jobs)

abbrev pub AllCovered : List Order → Pool → Type 0
AllCovered [] p = Unit
AllCovered (o ∷ rest) p = IsCovered o.id p × AllCovered rest p

pub try_enqueue-IsCovered : (job : OrderJob) (p : Pool) → IsCovered job.id (try_enqueue job p).1
try_enqueue-IsCovered job p = elim (try_enqueue_cases job p) [
  | inl (held, e) ↦ rw e (inl held)
  | inr (inl (free, room, e)) ↦ rw e (inl (rw ==_refl refl))
  | inr (inr (free, full, e)) ↦ rw e (inr full)
]

IsCovered-try_enqueue :
    (id : ℕ) (job : OrderJob) (p : Pool) → IsCovered id p → IsCovered id (try_enqueue job p).1
IsCovered-try_enqueue id job p h = elim (try_enqueue_cases job p) [
  | inl (held, e) ↦ rw e h
  | inr (inl (free, room, e)) ↦ rw e (ground arith)
  | inr (inr (free, full, e)) ↦ rw e h
]

module _ {W : Type 0} (d : Deps W) where
  IsCovered-enqueue_all :
      (id : ℕ) (orders : List Order) (p : Pool)
      → IsCovered id p
      → IsCovered id (enqueue_all d orders p)
  IsCovered-enqueue_all id [] p h = h
  IsCovered-enqueue_all id (o ∷ rest) p h =
      IsCovered-enqueue_all id rest (try_enqueue (order_to_job o) p).1
        (IsCovered-try_enqueue id (order_to_job o) p h)

  enqueue_all-AllCovered :
      (orders : List Order) (p : Pool) → AllCovered orders (enqueue_all d orders p)
  enqueue_all-AllCovered [] p = tt
  enqueue_all-AllCovered (o ∷ rest) p =
      let p' = (try_enqueue (order_to_job o) p).1 in
      (
        IsCovered-enqueue_all o.id rest p' (try_enqueue-IsCovered (order_to_job o) p),
        enqueue_all-AllCovered rest p',
      )

-- After a scan that reads orders from the repository, each of them is in flight, unless the queue is full.
pub scan_pending-AllCovered :
    {W : Type 0} (d : Deps W) (s : State W) (orders : List Order)
    → (d.repo.select_pending_orders d.poll_batch s.world).0 ≡ ok orders
    → AllCovered orders (scan_pending d s).pool
unfolding scan_pending
scan_pending-AllCovered d s orders h = rw h (enqueue_all-AllCovered d orders s.pool)
