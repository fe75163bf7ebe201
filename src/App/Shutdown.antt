-- ===== src/App/Shutdown.antt =====
-- The order of the shutdown in cmd/gophermart: what has ended when `App.Run` returns and when the database
-- is closed.
use loyalty_system.Prelude.{ℕ, ◌+◌, ◌≡◌, refl, Bool, true, false, arith}
use loyalty_system.App.Lifecycle.{
  RunPhase, awaiting_signal, awaiting_group, returned, PoolPhase, pool_done, StartPhase, starting,
  awaiting_stop, shutting_down, start_done, Listener, absent, serving, MainPhase, in_run,
  in_shutdown, closing_db, stopped, System, launched, Step, signal, wake_run, return_run,
  spawn_worker, spawned, return_pool, take_job, finish_job, stop_worker, launch_listener, listen,
  refuse_listen, fail_listen, fail_serving, begin_shutdown, return_start, leave_run, acquire,
  release, begin_close, close_db, Reach, here, next,
}

-- What each goroutine still owes to the wait group.
abbrev pub pool_owes : PoolPhase → ℕ
pool_owes pool_done = 0
pool_owes _ = 1

abbrev pub start_owes : StartPhase → ℕ
start_owes start_done = 0
start_owes _ = 1

abbrev pub is_serving : Listener → Bool
is_serving serving = true
is_serving _ = false

-- What the phase of each goroutine says about the rest.
abbrev pub RunFacts : RunPhase → System → Type 0
RunFacts awaiting_signal s = Unit
RunFacts awaiting_group s = s.cancelled ≡ true
RunFacts returned s = (s.cancelled ≡ true) × (s.group ≡ 0)

abbrev pub StartFacts : StartPhase → System → Type 0
StartFacts starting s = s.listener ≡ absent
StartFacts awaiting_stop s = Unit
StartFacts shutting_down s = (s.is_shut ≡ true) × (is_serving s.listener ≡ false)
StartFacts start_done s = (s.is_shut ≡ true) × (is_serving s.listener ≡ false)

abbrev pub MainFacts : MainPhase → System → Type 0
MainFacts in_run s = s.db_open ≡ true
MainFacts in_shutdown s = (s.db_open ≡ true) × (s.run ≡ returned)
MainFacts closing_db s = (s.db_open ≡ false) × (s.run ≡ returned)
MainFacts stopped s = s.run ≡ returned

pub record IsCoherent (s : System) : Type 0 where
  pub counted : s.group ≡ pool_owes s.pool + start_owes s.start
  pub run_facts : RunFacts s.run s
  pub start_facts : StartFacts s.start s
  pub main_facts : MainFacts s.main_phase s

Step-IsCoherent : {s t : System} → Step s t → IsCoherent s → IsCoherent t
Step-IsCoherent signal v = ground arith
Step-IsCoherent (wake_run a c) v = ground arith
Step-IsCoherent (return_run a c) v = ground arith
Step-IsCoherent (spawn_worker n a) v = ground arith
Step-IsCoherent (spawned a) v = ground arith
Step-IsCoherent (return_pool a c) v = ground arith
Step-IsCoherent (take_job a) v = ground arith
Step-IsCoherent (finish_job a) v = ground arith
Step-IsCoherent (stop_worker a c) v = ground arith
Step-IsCoherent (launch_listener a) v = ground arith
Step-IsCoherent (listen a c) v = ground arith
Step-IsCoherent (refuse_listen a c) v = ground arith
Step-IsCoherent (fail_listen a) v = ground arith
Step-IsCoherent (fail_serving a) v = ground arith
Step-IsCoherent (begin_shutdown a c) v = ground arith
Step-IsCoherent (return_start a) v = ground arith
Step-IsCoherent (leave_run a c) v = ground arith
Step-IsCoherent (acquire a) v = ground arith
Step-IsCoherent (release a) v = ground arith
Step-IsCoherent (begin_close a) v = ground arith
Step-IsCoherent (close_db a c) v = ground arith

launched-IsCoherent : (workers : ℕ) → IsCoherent (launched workers)
launched-IsCoherent workers = record {
  counted = refl;
  run_facts = tt;
  start_facts = refl;
  main_facts = refl;
}

pub Reach-IsCoherent : {workers : ℕ} {s : System} → Reach (launched workers) s → IsCoherent s
Reach-IsCoherent {workers} here = launched-IsCoherent workers
Reach-IsCoherent (next r st) = Step-IsCoherent st (Reach-IsCoherent r)

-- The server has been shut down and takes no new connections, and the goroutines that `Run` waits for have
-- returned.
pub record IsQuiet (s : System) : Type 0 where
  pub cancelled : s.cancelled ≡ true
  pub pool_returned : s.pool ≡ pool_done
  pub start_returned : s.start ≡ start_done
  pub shut : s.is_shut ≡ true
  pub not_serving : is_serving s.listener ≡ false

returned-IsQuiet : (s : System) → IsCoherent s → s.run ≡ returned → IsQuiet s
returned-IsQuiet s v over = ground arith

-- In whatever order the goroutines run, `App.Run` returns only after a signal, after `Server.Start` has shut
-- the HTTP server down and after `Run` of the worker pool has returned.
pub run_returns_last :
    {workers : ℕ} {s : System} → Reach (launched workers) s → s.run ≡ returned → IsQuiet s
run_returns_last {workers} {s} r over = returned-IsQuiet s (Reach-IsCoherent r) over

-- The database is closed only when `App.Run` has returned, after the HTTP server has been shut down.
pub close_db_last :
    {workers : ℕ} {s : System}
    → Reach (launched workers) s
    → s.db_open ≡ false
    → (s.run ≡ returned) × IsQuiet s
close_db_last {workers} {s} r shut =
    let v = Reach-IsCoherent r in
    let over : s.run ≡ returned = ground arith in (over, returned-IsQuiet s v over)
