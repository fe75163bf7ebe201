-- ===== src/Worker/Tests.antt =====
-- Runs of internal/order/worker.go, and the theorems at those inputs.
use loyalty_system.Prelude.{
  ℕ, List, ◌+◌, ◌≤◌, ◌≡◌, refl, ◌⊎◌, false, none, some, [], ◌∷◌, text_eq, any, ◌==◌, arith,
}
use loyalty_system.Prelude.Int.{pos, negsuc, ◌≤ℤ◌}
use loyalty_system.Prelude.Strings.{bytes}
use loyalty_system.Errors.{ok}
use loyalty_system.Pg.{Tables, OrderRow, new, processed, processing}
use loyalty_system.Pg.Memory.{memory, memory-PgLaws}
use loyalty_system.World.{World}
use loyalty_system.AccrualClient.{OrderInfo, validate}
use loyalty_system.Balance.{credit_accrual, insert_balance_accrual, upsert_user_balance}
use loyalty_system.Order.{
  Order, to_struct, get_order_by_id, order_by_id_query, update_order_accrual, update_accrual_stmt,
  select_pending_orders, pending_orders_query,
}
use loyalty_system.Order.Accrual.{apply_accrual_info, map_accrual_status}
use loyalty_system.Worker.{
  OrderJob, Pool, State, delete, is_inflight, scan_pending, apply_accrual_update, process_job,
}
use loyalty_system.Worker.Config.{
  WorkerPoolConfig, made, IsUsable, new_accrual_worker_pool, new_accrual_worker_pool-IsUsable,
}
use loyalty_system.Worker.Scan.{AllCovered, scan_pending-AllCovered}
use loyalty_system.Worker.Starvation.{starved_not_scanned}
use loyalty_system.Worker.Requeue.{process_job-jobs}
use loyalty_system.Worker.Queue.{
  Crew, Reach, here, next, store, send, receive, IsOrderly, holds, one_worker_per_order,
}
use loyalty_system.Worker.RateLimit
use loyalty_system.Worker.RateLimit.{
  Setters, loading, loaded, returned, load, swap, retry, give_up, latest_deadline_wins, AllMet,
  Among,
}
use loyalty_system.Worker.Wiring.{Outside, deps_of}
use loyalty_system.Worker.Update.{Applies, apply_accrual_update-Applies}
use loyalty_system.Worker.Payment.{stored_final-not_pending}

abbrev job : OrderJob
job = record { id = 21; user_id = 7; number = bytes "18"; status = new }

abbrev uploaded : OrderRow
uploaded = record {
  id = 21;
  user_id = 7;
  number = bytes "18";
  status = new;
  accrual = none;
  uploaded_at = 0;
}

abbrev shop : Tables
shop = record {
  users = record { id = 7; login = bytes "ann"; password = bytes "h" } ∷ [];
  orders = uploaded ∷ [];
  user_balance = [];
  withdrawals = [];
  balance_accruals = [];
}

abbrev busy_pool : Pool
busy_pool = record { jobs = []; capacity = 4; inflight = 21 ∷ []; rate_limit_until = pos 0 }

abbrev start : State (World Tables (Unit {0}))
start = record { pool = busy_pool; world = record { server = shop; rest = tt } }

abbrev info : OrderInfo
info = record { order = bytes "18"; status = bytes "PROCESSED"; accrual = some (pos 500) }

abbrev outside : Outside Unit
outside = record {
  client = record { get_order_info = λ number w. (ok info, w) };
  poll_batch = pos 2;
  now = λ w. pos 5;
  sleep = λ wait w. w;
}

abbrev paid : Order
paid = to_struct (record uploaded { status = processed; accrual = some (pos 500) })

read : apply_accrual_info (to_struct uploaded) info ≡ ok paid
unfolding apply_accrual_info map_accrual_status validate text_eq
read = refl

applied : (apply_accrual_update (deps_of memory outside) job info start).0 ≡ ok tt
unfolding apply_accrual_update get_order_by_id order_by_id_query apply_accrual_info
    map_accrual_status validate text_eq update_order_accrual update_accrual_stmt credit_accrual
    insert_balance_accrual upsert_user_balance
applied = refl

new_accrual_worker_pool-IsUsable_example :
    (full : WorkerPoolConfig) × (p : Pool) × (new_accrual_worker_pool 4096
        (record { workers = pos 3; poll_interval = negsuc 0; poll_batch = pos 0 })
      ≡ made full p)
    × IsUsable full p
new_accrual_worker_pool-IsUsable_example =
    new_accrual_worker_pool-IsUsable 4096 3
      (record { workers = pos 3; poll_interval = negsuc 0; poll_batch = pos 0 }) (omega arith)
      (omega arith) (omega arith) (omega arith) (omega arith)

process_job-jobs_example :
    let q = (process_job (deps_of memory outside) job start).pool in
    (q.jobs ≡ []) × (q.inflight ≡ delete 21 (21 ∷ []))
process_job-jobs_example = process_job-jobs (deps_of memory outside) job start refl

abbrev idle : Crew
idle = record { pool = record busy_pool { inflight = [] }; offered = []; working = [] }

idle-IsOrderly : IsOrderly idle
idle-IsOrderly = record { tracked = λ id. refl; once = λ id. omega arith; bounded = omega arith }

-- The job is enqueued and received.
abbrev at_work : Crew
at_work = record { pool = busy_pool; offered = []; working = job ∷ [] }

taken : Reach idle at_work
taken =
    next (next (next here (store job refl)) (send job [] [] refl (omega arith)))
      (receive job [] refl)

one_worker_per_order_example : (holds 21 (job ∷ []) + holds 21 [] ≤ 1) × (0 ≤ 4)
one_worker_per_order_example = one_worker_per_order idle-IsOrderly taken 21

-- Two goroutines load the old deadline 5. The one with the deadline 9 swaps; the other, with 7, finds
-- another value than it loaded, loads again and gives up.
abbrev before : Setters
before = record { cell = pos 5; all = loading (pos 7) ∷ loading (pos 9) ∷ [] }

abbrev after : Setters
after = record { cell = pos 9; all = returned (pos 7) ∷ returned (pos 9) ∷ [] }

swapped : RateLimit.Reach before after
swapped =
    RateLimit.next
      (RateLimit.next
        (RateLimit.next
          (RateLimit.next
            (RateLimit.next
              (RateLimit.next RateLimit.here (load (loading (pos 7) ∷ []) [] (pos 9) refl))
              (load [] (loaded (pos 9) (pos 5) ∷ []) (pos 7) refl))
            (swap (loaded (pos 7) (pos 5) ∷ []) [] (pos 9) (pos 5) refl refl refl))
          (retry [] (returned (pos 9) ∷ []) (pos 7) (pos 5) refl refl (ground arith)))
        (load [] (returned (pos 9) ∷ []) (pos 7) refl))
      (give_up [] (returned (pos 9) ∷ []) (pos 7) (pos 9) refl refl)

latest_deadline_wins_example :
    (pos 5 ≤ℤ pos 9)
    × AllMet (pos 9) (returned (pos 7) ∷ returned (pos 9) ∷ [])
    × ((pos 9 ≡ pos 5) ⊎ Among (pos 9) (returned (pos 7) ∷ returned (pos 9) ∷ []))
latest_deadline_wins_example = latest_deadline_wins {s = before} {t = after} tt swapped tt

apply_accrual_update-Applies_example :
    Applies job info shop
      (apply_accrual_update (deps_of memory outside) job info start).0
      (apply_accrual_update (deps_of memory outside) job info start).1.world.server
apply_accrual_update-Applies_example =
    apply_accrual_update-Applies memory memory-PgLaws outside job info start

abbrev finished : Tables
finished = (update_order_accrual memory 21 processed (pos 500) shop).1

none_pending : (select_pending_orders memory (pos 2) finished).0 ≡ ok []
unfolding select_pending_orders pending_orders_query update_order_accrual update_accrual_stmt
none_pending = refl

stored : (update_order_accrual memory 21 processed (pos 500) shop).0 ≡ ok tt
unfolding update_order_accrual update_accrual_stmt
stored = refl

stored_final-not_pending_example : any (λ (o : Order). o.id == 21) [] ≡ false
stored_final-not_pending_example =
    stored_final-not_pending memory memory-PgLaws 21 processed (pos 500) shop (pos 2) [] stored refl
      none_pending

-- Two older orders that stay unfinished, a younger one, and a batch of two.
abbrev waiting : (id uploaded_at : ℕ) → OrderRow
waiting id uploaded_at = record uploaded { id = id; status = processing; uploaded_at = uploaded_at }

abbrev crowded : State (World Tables Unit)
crowded = record {
  pool = record busy_pool { inflight = [] };
  world = record {
    server = record shop { orders = waiting 3 9 ∷ waiting 1 4 ∷ waiting 2 5 ∷ [] };
    rest = tt;
  };
}

abbrev oldest : List Order
oldest = to_struct (waiting 1 4) ∷ to_struct (waiting 2 5) ∷ []

oldest_selected :
    ((deps_of memory outside).repo.select_pending_orders (pos 2) crowded.world).0 ≡ ok oldest
unfolding select_pending_orders pending_orders_query
oldest_selected = refl

scan_pending-AllCovered_example :
    AllCovered oldest (scan_pending (deps_of memory outside) crowded).pool
scan_pending-AllCovered_example =
    scan_pending-AllCovered (deps_of memory outside) crowded oldest oldest_selected

starved_not_scanned_example :
    is_inflight 3 (scan_pending (deps_of memory outside) crowded).pool ≡ false
starved_not_scanned_example =
    starved_not_scanned memory memory-PgLaws outside crowded 3 9 refl (omega arith) refl
