-- ===== src/App/Abandoned.antt =====
-- `AccrualWorkerPool.Run` of internal/order/worker.go does not wait for the workers that it has started, so
-- that `main` closes the database under them.
use loyalty_system.Prelude.{ℕ, zero, suc, ◌+◌, ◌-◌, ◌≤◌, ◌≡◌, refl, subst, false, arith}
use loyalty_system.App.Lifecycle.{
  PoolPhase, spawning, System, launched, signal, wake_run, return_run, spawn_worker, spawned,
  return_pool, take_job, launch_listener, begin_shutdown, return_start, leave_run, begin_close,
  close_db, Reach, here, next,
}

Reach-trans : {s t u : System} → Reach s t → Reach t u → Reach s u
Reach-trans r here = r
Reach-trans r (next q st) = next (Reach-trans r q) st

abbrev crew : (idle busy : ℕ) → PoolPhase → System
crew idle busy pool = record (launched 0) { idle = idle; busy = busy; pool = pool }

spawn_all : (n i j : ℕ) → n + i ≡ j → Reach (crew i 0 (spawning n)) (crew j 0 (spawning 0))
spawn_all zero i j e =
    let same : i ≡ j = omega arith in
    subst (λ k. Reach (crew i 0 (spawning 0)) (crew k 0 (spawning 0))) same here
spawn_all (suc n) i j e =
    Reach-trans (next here (spawn_worker n refl)) (spawn_all n (suc i) j (omega arith))

take_all :
    (k i b i' b' : ℕ)
    → i ≡ k + i'
    → k + b ≡ b'
    → Reach (crew i b (spawning 0)) (crew i' b' (spawning 0))
take_all zero i b i' b' e f =
    let same_i : i ≡ i' = omega arith in
    let same_b : b ≡ b' = omega arith in
    subst (λ x. Reach (crew i b (spawning 0)) (crew x b' (spawning 0))) same_i
      (subst (λ x. Reach (crew i b (spawning 0)) (crew i x (spawning 0))) same_b here)
take_all (suc k) i b i' b' e f =
    Reach-trans (next here (take_job (omega arith)))
      (take_all k (i - 1) (suc b) i' b' (omega arith) (omega arith))

-- However many of the workers are in the middle of a job, `App.Run` can return and `main` can close the
-- database while all of them still are.
pub workers_outlive_db :
    (workers busy : ℕ)
    → busy ≤ workers
    → (s : System) × Reach (launched workers) s × (s.db_open ≡ false) × (s.busy ≡ busy)
workers_outlive_db workers busy h =
    let at_work = crew (workers - busy) busy (spawning 0) in
    let start : Reach (launched workers) at_work =
      Reach-trans (spawn_all workers 0 workers (omega arith))
        (take_all busy workers 0 (workers - busy) busy (omega arith) (omega arith)) in
    let cancelled = next (next start (spawned refl)) signal in
    let shut = next (next cancelled (launch_listener refl)) (begin_shutdown refl refl) in
    let waited = next (next shut (return_start refl)) (return_pool refl refl) in
    let over = next (next waited (wake_run refl refl)) (return_run refl refl) in
    let closing = next (next over (leave_run refl refl)) (begin_close refl) in
    (_, next closing (close_db refl refl), refl, refl)
