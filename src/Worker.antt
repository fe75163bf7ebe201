-- ===== src/Worker.antt =====
-- internal/order/worker.go: the pool that polls the accrual system for uploaded orders. One call of
-- a method is one step here; Worker/Queue has the steps of concurrent goroutines.
pub mod Wiring
pub mod Stores
pub mod Update
pub mod Payment
pub mod Paid
pub mod Journey
pub mod Requeue
pub mod Scan
pub mod Starvation
pub mod Queue
pub mod RateLimit
pub mod Deadline
pub mod Config
mod Tests
use loyalty_system.Prelude.{
  ℕ, ◌+◌, ◌*◌, Bool, true, false, not, ◌&&◌, ◌||◌, Option, none, some, List, [], ◌∷◌, ◌++◌, Text,
  any, length, ltb, ◌==◌, if◌then◌else◌,
}
use loyalty_system.Prelude.Int.{ℤ, pos, ◌+ℤ◌, ◌-ℤ◌, leb_ℤ, eqb_ℤ, ltb_ℤ, wrap64}
use loyalty_system.Errors.{Error, Result, ok, err, Exec, pure, raise, ◌>>=◌, ◌>>◌}
use loyalty_system.Pg.{Status, new, processing, invalid, processed}
use loyalty_system.AccrualClient.{OrderInfo, Provider}
use loyalty_system.Order.{Order, status_eq}
use loyalty_system.Order.Accrual.{
  AccrualPollOutcome, Poll, apply_accrual_info, poll_order, updated, not_registered, rate_limited,
  transient_error,
}

pub record OrderJob : Type 0 where
  pub id : ℕ
  pub user_id : ℕ
  pub number : Text
  pub status : Status

abbrev pub order_to_job : Order → OrderJob
order_to_job o = record { id = o.id; user_id = o.user_id; number = o.number; status = o.status }

-- The interfaces `WorkerRepoProvider` and `BalanceProvider`.
pub record WorkerRepo (W : Type 0) : Type 0 where
  pub select_pending_orders : ℤ → Exec W (List Order)
  pub get_order_by_id : ℕ → Exec W Order
  pub update_order_accrual : ℕ → Status → ℤ → Exec W (Unit {0})

pub record BalanceProvider (W : Type 0) : Type 0 where
  pub credit_accrual : (user_id order_id : ℕ) → ℤ → Exec W (Unit {0})

-- The fields of `AccrualWorkerPool` that change, with the capacity of the channel: the jobs in the
-- channel, oldest first, the keys of `inflight`, and the deadline of the rate limit, 0 for none.
pub record Pool : Type 0 where
  pub jobs : List OrderJob
  pub capacity : ℕ
  pub inflight : List ℕ
  pub rate_limit_until : ℤ

-- What the pool is built over: `time.Now` (in nanoseconds) is read from the world.
pub record Deps (W : Type 0) : Type 0 where
  pub repo : WorkerRepo W
  pub client : Provider W
  pub balance : Option (BalanceProvider W)
  pub poll_batch : ℤ
  pub now : W → ℤ
  -- `ctx.Done()` or a timer: the world when the wait is over
  pub sleep : ℤ → W → W

pub record State (W : Type 0) : Type 0 where
  pub pool : Pool
  pub world : W

abbrev pub is_inflight : ℕ → Pool → Bool
is_inflight id p = any (λ j. j == id) p.inflight

-- `inflight.Delete(id)`
abbrev pub delete : ℕ → List ℕ → List ℕ
delete id [] = []
delete id (j ∷ js) = let rest = delete id js in if j == id then rest else j ∷ rest

-- `LoadOrStore`, then the send that does not block.
unfoldable pub try_enqueue : OrderJob → Pool → Bool × Pool
try_enqueue job p =
    if is_inflight job.id p
    then (false, p)
    else if ltb (length p.jobs) p.capacity
    then (true, record p { jobs = p.jobs ++ job ∷ []; inflight = job.id ∷ p.inflight })
    else (false, record p { inflight = delete job.id (job.id ∷ p.inflight) })

unfoldable pub enqueue : OrderJob → Pool → Pool
unfolding try_enqueue
enqueue job p = (try_enqueue job p).1

abbrev pub default_rate_limit_backoff : ℤ
default_rate_limit_backoff = pos 60_000_000_000

abbrev pub effective_backoff : ℤ → ℤ
effective_backoff retry_after =
    if leb_ℤ retry_after (pos 0) then default_rate_limit_backoff else retry_after

-- `time.Now().Add(retryAfter).UnixNano()`, an int64
abbrev pub new_until : (now retry_after : ℤ) → ℤ
new_until now retry_after = wrap64 (now +ℤ effective_backoff retry_after)

-- With no other goroutine at work the first compare-and-swap succeeds.
unfoldable pub set_rate_limit : (now retry_after : ℤ) → Pool → Pool
set_rate_limit now retry_after p =
    if leb_ℤ (new_until now retry_after) p.rate_limit_until
    then p
    else record p { rate_limit_until = new_until now retry_after }

-- A call on the world, a pure result, and a step of the pool, as actions of a worker.
module _ {W : Type 0} where
  abbrev pub on_world : {A : Type 0} → Exec W A → Exec (State W) A
  on_world m s = let (r, w) = m s.world in (r, record s { world = w })

  abbrev pub lift : {A : Type 0} → Result A → Exec (State W) A
  lift r s = (r, s)

  abbrev pub on_pool : (Pool → Pool) → Exec (State W) (Unit {0})
  on_pool f s = (ok tt, record s { pool = f s.pool })

-- `updated.Status == current.Status && updated.Accrual == current.Accrual`
abbrev pub is_unchanged : (current changed : Order) → Bool
is_unchanged current changed =
    status_eq changed.status current.status && eqb_ℤ changed.accrual current.accrual

abbrev pub is_credit_due : Order → Bool
is_credit_due o = status_eq o.status processed && ltb_ℤ (pos 0) o.accrual

abbrev pub is_unfinished : Order → Bool
is_unfinished o = status_eq o.status new || status_eq o.status processing

abbrev pub requeue : OrderJob → Order → Pool → Pool
requeue job o p =
    if is_unfinished o then (try_enqueue (record job { status = o.status }) p).1 else p

module _ {W : Type 0} (d : Deps W) where
  -- `p.balance.CreditAccrual`, unless `p.balance` is nil.
  abbrev pub credit_with : Option (BalanceProvider W) → OrderJob → Order → Exec (State W) (Unit {0})
  credit_with none job o = pure tt
  credit_with (some balance) job o =
      if is_credit_due o
      then on_world (balance.credit_accrual job.user_id job.id o.accrual)
      else pure tt

  -- What `applyAccrualUpdate` does once it has the order and what the answer makes of it.
  unfoldable pub store_update : OrderJob → (current changed : Order) → Exec (State W) (Unit {0})
  store_update job current changed = if is_unchanged current changed then pure tt else (do
    on_world (d.repo.update_order_accrual job.id changed.status changed.accrual)
    credit_with d.balance job changed
    on_pool (requeue job changed))

  unfoldable pub apply_accrual_update : OrderJob → OrderInfo → Exec (State W) (Unit {0})
  unfolding store_update
  apply_accrual_update job info = do
    current ← on_world (d.repo.get_order_by_id job.id)
    changed ← lift (apply_accrual_info current info)
    store_update job current changed

  -- The worker sleeps until the deadline, or until its context is done.
  unfoldable pub wait_rate_limit : State W → State W
  wait_rate_limit s =
      let wait = s.pool.rate_limit_until -ℤ d.now s.world in
      if eqb_ℤ s.pool.rate_limit_until (pos 0) || leb_ℤ wait (pos 0)
      then s
      else record s { world = d.sleep wait s.world }

  -- The `switch` of `processJob`. Errors are only logged.
  abbrev pub on_outcome : OrderJob → AccrualPollOutcome → Poll → State W → State W
  on_outcome job rate_limited poll s = record s {
    pool = (try_enqueue job (set_rate_limit (d.now s.world) poll.retry_after s.pool)).1;
  }
  on_outcome job not_registered poll s = s
  on_outcome job transient_error poll s = s
  on_outcome job updated poll s = (apply_accrual_update job poll.info s).1

  abbrev pub finish : OrderJob → State W → State W
  finish job s = record s { pool = record s.pool { inflight = delete job.id s.pool.inflight } }

  unfoldable pub process_job : OrderJob → State W → State W
  process_job job s =
      let s1 = wait_rate_limit s in
      let (poll, w) = poll_order d.client job.number s1.world in
      finish job (on_outcome job poll.outcome poll (record s1 { world = w }))

  abbrev pub enqueue_all : List Order → Pool → Pool
  enqueue_all [] p = p
  enqueue_all (o ∷ rest) p = enqueue_all rest (try_enqueue (order_to_job o) p).1

  abbrev pub scanned : Result (List Order) → Pool → Pool
  scanned (ok orders) p = enqueue_all orders p
  scanned (err e) p = p

  unfoldable pub scan_pending : State W → State W
  scan_pending s =
      let (r, w) = d.repo.select_pending_orders d.poll_batch s.world in
      record { pool = scanned r s.pool; world = w }
