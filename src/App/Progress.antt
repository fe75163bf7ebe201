-- ===== src/App/Progress.antt =====
-- After a signal the application of cmd/gophermart stops, and what may still be at work when it does.
use loyalty_system.Prelude.{ℕ, zero, suc, ◌+◌, ◌≤◌, ◌≡◌, refl, ◌⊎◌, inl, inr, true, false, arith}
use loyalty_system.App.Lifecycle.{
  RunPhase, awaiting_signal, awaiting_group, returned, PoolPhase, spawning, awaiting_cancel,
  pool_done, StartPhase, starting, awaiting_stop, shutting_down, start_done, MainPhase, in_run,
  in_shutdown, closing_db, stopped, System, launched, Step, signal, wake_run, return_run,
  spawn_worker, spawned, return_pool, take_job, finish_job, stop_worker, launch_listener, listen,
  refuse_listen, fail_listen, fail_serving, begin_shutdown, return_start, leave_run, acquire,
  release, begin_close, close_db, Reach,
}
use loyalty_system.App.Shutdown.{IsCoherent, Reach-IsCoherent}

-- How many steps each goroutine has left once there is a signal.
abbrev pub run_left : RunPhase → ℕ
run_left awaiting_signal = 2
run_left awaiting_group = 1
run_left returned = 0

abbrev pub pool_left : PoolPhase → ℕ
pool_left (spawning n) = n + 2
pool_left awaiting_cancel = 1
pool_left pool_done = 0

abbrev pub start_left : StartPhase → ℕ
start_left starting = 3
start_left awaiting_stop = 2
start_left shutting_down = 1
start_left start_done = 0

abbrev pub main_left : MainPhase → ℕ
main_left in_run = 3
main_left in_shutdown = 2
main_left closing_db = 1
main_left stopped = 0

abbrev pub steps_left : System → ℕ
steps_left s = run_left s.run + pool_left s.pool + start_left s.start + main_left s.main_phase

-- A step that brings the end nearer: one of the goroutines has a step fewer left, or a connection is
-- returned to the pool that is being closed.
pub record Nearer (s : System) : Type 0 where
  pub after : System
  pub step : Step s after
  pub fewer :
      (suc (steps_left after) ≡ steps_left s)
      ⊎ ((steps_left after ≡ steps_left s) × (suc after.lent ≡ s.lent) × (s.db_open ≡ false))

module _ (s : System) (v : IsCoherent s) (c : s.cancelled ≡ true) where
  close_step :
      (n : ℕ) → s.lent ≡ n → s.main_phase ≡ closing_db → (s.main_phase ≡ stopped) ⊎ Nearer s
  close_step zero none_lent e =
      inr (record { after = _; step = close_db e none_lent; fewer = inl (ground arith) })
  close_step (suc n) some_lent e = inr (record {
    after = _;
    step = release (omega arith);
    fewer = inr (refl, omega arith, ground arith);
  })

  main_step :
      (m : MainPhase) → s.main_phase ≡ m → s.run ≡ returned → (s.main_phase ≡ stopped) ⊎ Nearer s
  main_step in_run e over =
      inr (record { after = _; step = leave_run e over; fewer = inl (ground arith) })
  main_step in_shutdown e over =
      inr (record { after = _; step = begin_close e; fewer = inl (ground arith) })
  main_step closing_db e over = close_step s.lent refl e
  main_step stopped e over = inl e

  run_step : (r : RunPhase) → s.run ≡ r → s.group ≡ 0 → (s.main_phase ≡ stopped) ⊎ Nearer s
  run_step awaiting_signal e g =
      inr (record { after = _; step = wake_run e c; fewer = inl (ground arith) })
  run_step awaiting_group e g =
      inr (record { after = _; step = return_run e g; fewer = inl (ground arith) })
  run_step returned e g = main_step s.main_phase refl e

  start_step :
      (p : StartPhase) → s.start ≡ p → s.pool ≡ pool_done → (s.main_phase ≡ stopped) ⊎ Nearer s
  start_step starting e d =
      inr (record { after = _; step = launch_listener e; fewer = inl (ground arith) })
  start_step awaiting_stop e d =
      inr (record { after = _; step = begin_shutdown e c; fewer = inl (ground arith) })
  start_step shutting_down e d =
      inr (record { after = _; step = return_start e; fewer = inl (ground arith) })
  start_step start_done e d = run_step s.run refl (ground (arith, v.counted))

  pool_step : (p : PoolPhase) → s.pool ≡ p → (s.main_phase ≡ stopped) ⊎ Nearer s
  pool_step (spawning zero) e =
      inr (record { after = _; step = spawned e; fewer = inl (ground arith) })
  pool_step (spawning (suc n)) e =
      inr (record { after = _; step = spawn_worker n e; fewer = inl (ground arith) })
  pool_step awaiting_cancel e =
      inr (record { after = _; step = return_pool e c; fewer = inl (ground arith) })
  pool_step pool_done e = start_step s.start refl e

-- No step brings the end further away: no goroutine ever has more steps left, and no connection is lent
-- once the pool is being closed.
pub Step-steps_left :
    {s t : System}
    → Step s t
    → (steps_left t ≤ steps_left s) × (s.db_open ≡ false → t.lent ≤ s.lent)
Step-steps_left signal = (omega arith, λ h. omega arith)
Step-steps_left (wake_run a c) = (ground arith, λ h. omega arith)
Step-steps_left (return_run a c) = (ground arith, λ h. omega arith)
Step-steps_left (spawn_worker n a) = (ground arith, λ h. omega arith)
Step-steps_left (spawned a) = (ground arith, λ h. omega arith)
Step-steps_left (return_pool a c) = (ground arith, λ h. omega arith)
Step-steps_left (take_job a) = (omega arith, λ h. omega arith)
Step-steps_left (finish_job a) = (omega arith, λ h. omega arith)
Step-steps_left (stop_worker a c) = (omega arith, λ h. omega arith)
Step-steps_left (launch_listener a) = (ground arith, λ h. omega arith)
Step-steps_left (listen a c) = (omega arith, λ h. omega arith)
Step-steps_left (refuse_listen a c) = (omega arith, λ h. omega arith)
Step-steps_left (fail_listen a) = (omega arith, λ h. omega arith)
Step-steps_left (fail_serving a) = (omega arith, λ h. omega arith)
Step-steps_left (begin_shutdown a c) = (ground arith, λ h. omega arith)
Step-steps_left (return_start a) = (ground arith, λ h. omega arith)
Step-steps_left (leave_run a c) = (ground arith, λ h. omega arith)
Step-steps_left (acquire a) = (omega arith, λ h. cc)
Step-steps_left (release a) = (omega arith, λ h. omega arith)
Step-steps_left (begin_close a) = (ground arith, λ h. omega arith)
Step-steps_left (close_db a c) = (ground arith, λ h. omega arith)

-- After a signal the application is never stuck, whatever the goroutines have done, whether or not the
-- HTTP server is listening and however many connections are lent: `main` is at its end, or some
-- goroutine can take one of the steps that are left, of which there is then one fewer, or one of the
-- connections that the closing of the pool waits for, none of which can be lent again, can be returned.
pub signal_progress :
    {workers : ℕ} {s : System}
    → Reach (launched workers) s
    → s.cancelled ≡ true
    → (s.main_phase ≡ stopped) ⊎ Nearer s
signal_progress {workers} {s} r c = pool_step s (Reach-IsCoherent r) c s.pool refl
