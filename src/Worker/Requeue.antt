-- ===== src/Worker/Requeue.antt =====
-- internal/order/worker.go: what becomes of the queue and the in-flight keys when a job is enqueued
-- and when it is processed.
use loyalty_system.Prelude.{
  ℕ, ◌≤◌, ◌<◌, ◌≡◌, refl, ap, ◌∙◌, ◌⊎◌, inl, inr, Bool, true, false, Option, none, some, List, [],
  ◌∷◌, ◌++◌, any, length, length-append, ltb, ◌==◌, ==_refl, if◌then◌else◌, arith, Bool-cases,
}
use loyalty_system.Prelude.Int.{ℤ}
use loyalty_system.Errors.{Result, ok, err, Exec, continue, ◌>>=◌, ◌>>◌}
use loyalty_system.AccrualClient.{OrderInfo}
use loyalty_system.Order.{Order}
use loyalty_system.Order.Accrual.{
  AccrualPollOutcome, Poll, updated, not_registered, rate_limited, transient_error,
  apply_accrual_info, poll_order,
}
use loyalty_system.Worker.{
  OrderJob, Pool, Deps, State, BalanceProvider, is_inflight, delete, try_enqueue, set_rate_limit,
  store_update, apply_accrual_update, wait_rate_limit, on_outcome, process_job, credit_with,
  is_unchanged, is_unfinished, is_credit_due, on_pool, on_world, lift, requeue,
}

-- A job whose order is in flight is refused, and nothing changes.
try_enqueue_inflight :
    (job : OrderJob) (p : Pool) → is_inflight job.id p ≡ true → try_enqueue job p ≡ (false, p)
unfolding try_enqueue
try_enqueue_inflight job p h = rw h

any-delete :
    (id k : ℕ) (js : List ℕ)
    → any (λ j. j == k) (delete id js) ≡ (if id == k then false else any (λ j. j == k) js)
any-delete id k [] = ground arith
any-delete id k (j ∷ js) = ground (arith, any-delete id k js)

pub delete_absent : (id : ℕ) (js : List ℕ) → any (λ j. j == id) js ≡ false → delete id js ≡ js
delete_absent id [] h = refl
delete_absent id (j ∷ js) h = ground (arith, delete_absent id js)

-- `tryEnqueue` does one of three things: it refuses a job that is in flight, puts a job at the end of
-- the queue and marks it in flight if there is room, and drops it if there is none. It reports whether
-- the job is in the queue, and where it is not, queue and in-flight keys are as before.
pub try_enqueue_cases :
    (job : OrderJob) (p : Pool)
    → ((is_inflight job.id p ≡ true) × (try_enqueue job p ≡ (false, p)))
      ⊎ (((is_inflight job.id p ≡ false)
            × (length p.jobs < p.capacity)
            × (try_enqueue job p
                ≡ (true, record p { jobs = p.jobs ++ job ∷ []; inflight = job.id ∷ p.inflight })))
          ⊎ ((is_inflight job.id p ≡ false)
              × (p.capacity ≤ length p.jobs)
              × (try_enqueue job p ≡ (false, p))))
unfolding try_enqueue
try_enqueue_cases job p = elim (Bool-cases (is_inflight job.id p)) [
  | inl held ↦ inl (held, rw held)
  | inr free ↦ elim (Bool-cases (ltb (length p.jobs) p.capacity)) [
    | inl room ↦ inr (inl (free, ground arith, rw (free, room)))
    | inr full ↦ inr (
        inr (
          free,
          ground arith,
          rw (free, full, ==_refl job.id, delete_absent job.id p.inflight free),
        ))
  ]
]

-- The queue never holds more jobs than the channel's capacity.
pub length-try_enqueue :
    (job : OrderJob) (p : Pool)
    → length p.jobs ≤ p.capacity
    → length (try_enqueue job p).1.jobs ≤ (try_enqueue job p).1.capacity
unfolding try_enqueue
length-try_enqueue job p h = ground (arith, length-append p.jobs (job ∷ []))

set_rate_limit-jobs : (now wait : ℤ) (p : Pool) → (set_rate_limit now wait p).jobs ≡ p.jobs
unfolding set_rate_limit
set_rate_limit-jobs now wait p = ground arith

set_rate_limit-inflight :
    (now wait : ℤ) (p : Pool) → (set_rate_limit now wait p).inflight ≡ p.inflight
unfolding set_rate_limit
set_rate_limit-inflight now wait p = ground arith

-- An action that leaves the pool alone while the job's order is in flight.
record Keeps {W A : Type 0} (job : OrderJob) (m : Exec (State W) A) : Type 0 where
  at : (s : State W) → is_inflight job.id s.pool ≡ true → (m s).1.pool ≡ s.pool

module _ {W : Type 0} {job : OrderJob} where
  world-Keeps : {A : Type 0} (m : Exec W A) → Keeps job (on_world m)
  world-Keeps m = record { at = λ s h. refl }

  lift-Keeps : {A : Type 0} (r : Result A) → Keeps job (lift {W = W} r)
  lift-Keeps r = record { at = λ s h. refl }

  continue-Keeps :
      {A B : Type 0} (r : Result A) (f : A → Exec (State W) B) (s t : State W)
      → ((a : A) → Keeps job (f a))
      → t.pool ≡ s.pool
      → is_inflight job.id s.pool ≡ true
      → (continue r f t).1.pool ≡ s.pool
  continue-Keeps (ok a) f s t keeps e h = (keeps a).at t (rw e h) ∙ e
  continue-Keeps (err x) f s t keeps e h = e

  bind-Keeps :
      {A B : Type 0} (m : Exec (State W) A) (f : A → Exec (State W) B)
      → Keeps job m
      → ((a : A) → Keeps job (f a))
      → Keeps job (m >>= f)
  bind-Keeps m f keeps rest = record {
    at = λ s h. continue-Keeps (m s).0 f s (m s).1 rest (keeps.at s h) h;
  }

  if-Keeps :
      {A : Type 0} (b : Bool) (m n : Exec (State W) A)
      → Keeps job m
      → Keeps job n
      → Keeps job (if b then m else n)
  if-Keeps true m n hm hn = hm
  if-Keeps false m n hm hn = hn

  requeue-Keeps : (o : Order) → Keeps job (on_pool {W = W} (requeue job o))
  requeue-Keeps o = record {
    at = λ s h. elim (Bool-cases (is_unfinished o)) [
      | inl again ↦ rw again (
          ap (λ (x : Bool × Pool). x.1)
            (try_enqueue_inflight (record job { status = o.status }) s.pool h))
      | inr over ↦ rw over
    ];
  }

module _ {W : Type 0} (d : Deps W) (job : OrderJob) where
  credit_with-Keeps :
      (balance : Option (BalanceProvider W)) (o : Order) → Keeps job (credit_with d balance job o)
  credit_with-Keeps none o = record { at = λ s h. refl }
  credit_with-Keeps (some b) o =
      if-Keeps (is_credit_due o) _ _ (world-Keeps (b.credit_accrual job.user_id job.id o.accrual))
        (lift-Keeps (ok tt))

  store_update-Keeps : (current changed : Order) → Keeps job (store_update d job current changed)
  unfolding store_update
  store_update-Keeps current changed =
      if-Keeps (is_unchanged current changed) _ _ (lift-Keeps (ok tt)) (
        bind-Keeps (on_world (d.repo.update_order_accrual job.id changed.status changed.accrual))
          (λ _. credit_with d d.balance job changed >> on_pool (requeue job changed))
          (world-Keeps (d.repo.update_order_accrual job.id changed.status changed.accrual))
          (λ _.
            bind-Keeps (credit_with d d.balance job changed) (λ _. on_pool (requeue job changed))
              (credit_with-Keeps d.balance changed) (λ _. requeue-Keeps changed)))

  apply_accrual_update-Keeps : (info : OrderInfo) → Keeps job (apply_accrual_update d job info)
  unfolding apply_accrual_update
  apply_accrual_update-Keeps info =
      bind-Keeps (on_world (d.repo.get_order_by_id job.id))
        (λ current. lift (apply_accrual_info current info) >>= store_update d job current)
        (world-Keeps (d.repo.get_order_by_id job.id))
        (λ current.
          bind-Keeps (lift (apply_accrual_info current info)) (store_update d job current)
            (lift-Keeps (apply_accrual_info current info)) (store_update-Keeps current))

  wait_rate_limit-pool : (s : State W) → (wait_rate_limit d s).pool ≡ s.pool
  unfolding wait_rate_limit
  wait_rate_limit-pool s = ground arith

  on_outcome-jobs :
      (outcome : AccrualPollOutcome) (poll : Poll) (s : State W)
      → is_inflight job.id s.pool ≡ true
      → let q = (on_outcome d job outcome poll s).pool in
        (q.jobs ≡ s.pool.jobs) × (q.inflight ≡ s.pool.inflight)
  on_outcome-jobs rate_limited poll s h =
      let p = set_rate_limit (d.now s.world) poll.retry_after s.pool in
      let same = set_rate_limit-inflight (d.now s.world) poll.retry_after s.pool in
      let e = ap (λ (x : Bool × Pool). x.1) (try_enqueue_inflight job p (rw same h)) in
      (
        ap (λ (x : Pool). x.jobs) e ∙ set_rate_limit-jobs _ _ s.pool,
        ap (λ (x : Pool). x.inflight) e ∙ same,
      )
  on_outcome-jobs not_registered poll s h = (refl, refl)
  on_outcome-jobs transient_error poll s h = (refl, refl)
  on_outcome-jobs updated poll s h =
      let e = (apply_accrual_update-Keeps poll.info).at s h in
      (ap (λ (x : Pool). x.jobs) e, ap (λ (x : Pool). x.inflight) e)

  -- Processing a job whose order is in flight, as every queued job's is, puts nothing into the queue,
  -- whatever the accrual system and the database answer: the `tryEnqueue` calls that are meant to
  -- put the job back after a 429 and for a PROCESSING order find the order still in flight. Only then
  -- is the order taken out of the in-flight keys.
  pub process_job-jobs :
      (s : State W)
      → is_inflight job.id s.pool ≡ true
      → let q = (process_job d job s).pool in
        (q.jobs ≡ s.pool.jobs) × (q.inflight ≡ delete job.id s.pool.inflight)
  unfolding process_job
  process_job-jobs s h =
      let s1 = wait_rate_limit d s in
      let (poll, w) = poll_order d.client job.number s1.world in
      let same = wait_rate_limit-pool s in
      let out = on_outcome-jobs poll.outcome poll (record s1 { world = w }) (rw same h) in
      (
        out.0 ∙ ap (λ (x : Pool). x.jobs) same,
        ap (delete job.id) (out.1 ∙ ap (λ (x : Pool). x.inflight) same),
      )

  -- After a job whose order was in flight has been processed, the order is not in flight, so that the
  -- scanner can enqueue it again.
  pub process_job-is_inflight :
      (s : State W)
      → is_inflight job.id s.pool ≡ true
      → is_inflight job.id (process_job d job s).pool ≡ false
  process_job-is_inflight s h =
      rw (process_job-jobs s h).1 (any-delete job.id job.id s.pool.inflight ∙ rw ==_refl)
