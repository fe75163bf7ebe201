-- ===== src/App/Lifecycle.antt =====
-- `main` of cmd/gophermart/main.go, `App.Run` of cmd/gophermart/di/app.go and `Server.Start` of
-- cmd/gophermart/di/server.go after the initialization, with `Run` and the workers of
-- internal/order/worker.go, as interleaved steps of their goroutines.
use loyalty_system.Prelude.{ℕ, suc, ◌-◌, ◌<◌, ◌≡◌, Bool, true, false}

-- `App.Run`: at `<-ctx.Done()`, at `wg.Wait()`, and returned.
pub data RunPhase : Type 0 where
  awaiting_signal awaiting_group returned : RunPhase

-- `AccrualWorkerPool.Run`: with workers left to start, at `<-ctx.Done()`, and returned with `wg.Done()`.
pub data PoolPhase : Type 0 where
  spawning : ℕ → PoolPhase
  awaiting_cancel pool_done : PoolPhase

-- `Server.Start`: before its goroutine, at `<-ctx.Done()`, in `Shutdown`, and returned with `done()`.
pub data StartPhase : Type 0 where
  starting awaiting_stop shutting_down start_done : StartPhase

-- `ListenAndServe` in its goroutine.
pub data Listener : Type 0 where
  absent pending serving closed failed : Listener

-- `main`: in `app.Run`, in `gracefulShutdown`, in its `Close` of the pool of connections, and after it.
pub data MainPhase : Type 0 where
  in_run in_shutdown closing_db stopped : MainPhase

-- `idle` and `busy` are the numbers of workers at their `select` and in `processJob`; `group` is the counter
-- of the wait group, and `lent` the number of connections that have been acquired from the pool and not yet returned.
pub record System : Type 0 where
  pub cancelled : Bool
  pub run : RunPhase
  pub group : ℕ
  pub pool : PoolPhase
  pub idle : ℕ
  pub busy : ℕ
  pub start : StartPhase
  pub listener : Listener
  pub is_shut : Bool
  pub main_phase : MainPhase
  pub db_open : Bool
  pub lent : ℕ

-- `Shutdown` closes the listener.
abbrev pub shut_listener : Listener → Listener
shut_listener serving = closed
shut_listener l = l

-- After `wg.Add(2)` and the two `go` statements.
abbrev pub launched : (workers : ℕ) → System
launched workers = record {
  cancelled = false;
  run = awaiting_signal;
  group = 2;
  pool = spawning workers;
  idle = 0;
  busy = 0;
  start = starting;
  listener = absent;
  is_shut = false;
  main_phase = in_run;
  db_open = true;
  lent = 0;
}

pub data Step (s : System) : System → Type 0 where
  -- SIGINT or SIGTERM
  signal : Step s (record s { cancelled = true })
  wake_run :
      s.run ≡ awaiting_signal → s.cancelled ≡ true → Step s (record s { run = awaiting_group })
  return_run : s.run ≡ awaiting_group → s.group ≡ 0 → Step s (record s { run = returned })
  spawn_worker :
      (n : ℕ)
      → s.pool ≡ spawning (suc n)
      → Step s (record s { pool = spawning n; idle = suc s.idle })
  spawned : s.pool ≡ spawning 0 → Step s (record s { pool = awaiting_cancel })
  return_pool :
      s.pool ≡ awaiting_cancel
      → s.cancelled ≡ true
      → Step s (record s { pool = pool_done; group = s.group - 1 })
  -- A worker receives a job, is done with it, or sees that the context is cancelled.
  take_job : 0 < s.idle → Step s (record s { idle = s.idle - 1; busy = suc s.busy })
  finish_job : 0 < s.busy → Step s (record s { idle = suc s.idle; busy = s.busy - 1 })
  stop_worker : 0 < s.idle → s.cancelled ≡ true → Step s (record s { idle = s.idle - 1 })
  launch_listener :
      s.start ≡ starting → Step s (record s { start = awaiting_stop; listener = pending })
  listen : s.listener ≡ pending → s.is_shut ≡ false → Step s (record s { listener = serving })
  refuse_listen : s.listener ≡ pending → s.is_shut ≡ true → Step s (record s { listener = closed })
  fail_listen : s.listener ≡ pending → Step s (record s { listener = failed })
  fail_serving : s.listener ≡ serving → Step s (record s { listener = failed })
  begin_shutdown :
      s.start ≡ awaiting_stop
      → s.cancelled ≡ true
      → Step s
          (record s { start = shutting_down; is_shut = true; listener = shut_listener s.listener })
  -- `Shutdown` returns once no request is open, or after ten seconds.
  return_start :
      s.start ≡ shutting_down → Step s (record s { start = start_done; group = s.group - 1 })
  leave_run :
      s.main_phase ≡ in_run → s.run ≡ returned → Step s (record s { main_phase = in_shutdown })
  -- A worker, the scanner or a request acquires a connection, or returns it when its query is done.
  acquire : s.db_open ≡ true → Step s (record s { lent = suc s.lent })
  release : 0 < s.lent → Step s (record s { lent = s.lent - 1 })
  -- `Close` refuses further connections, and returns once all of them have been returned.
  begin_close :
      s.main_phase ≡ in_shutdown → Step s (record s { main_phase = closing_db; db_open = false })
  close_db : s.main_phase ≡ closing_db → s.lent ≡ 0 → Step s (record s { main_phase = stopped })

pub data Reach (s : System) : System → Type 0 where
  here : Reach s s
  next : {t u : System} → Reach s t → Step t u → Reach s u
