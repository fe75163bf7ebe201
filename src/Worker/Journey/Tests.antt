-- ===== src/Worker/Journey/Tests.antt =====
-- A run from the upload of the order 26 to its points: internal/order/handler.go and
-- internal/order/worker.go over a database and an accrual system that do not fail.
use loyalty_system.Prelude.{ℕ, ◌≡◌, refl, false, true, none, some, [], ◌∷◌, text_eq, any, ◌==◌}
use loyalty_system.Prelude.Int.{pos, ◌+ℤ◌}
use loyalty_system.Prelude.Strings.{bytes, trim_space}
use loyalty_system.Errors.{ok, done}
use loyalty_system.Luhn.{valid}
use loyalty_system.Http.{Request}
use loyalty_system.Pg.{Tables, processed}
use loyalty_system.Pg.Memory.{memory, memory-IsReliable}
use loyalty_system.World.{World}
use loyalty_system.AccrualClient.{OrderInfo}
use loyalty_system.Order.{new_row}
use loyalty_system.Order.Upload.{holder}
use loyalty_system.Order.Accepted.{given_id}
use loyalty_system.Order.Service.{service_of}
use loyalty_system.Order.Handler.{create_order_handler}
use loyalty_system.Order.Responses.{job_of}
use loyalty_system.Balance.Credit.{credited_already}
use loyalty_system.Balance.Ledger.{current_of}
use loyalty_system.Worker.{State, process_job}
use loyalty_system.Worker.Wiring.{Outside, deps_of}
use loyalty_system.Worker.Stores.{row_of}
use loyalty_system.Worker.Journey.{uploaded_order_is_paid}

-- User 7 holds the order 18 and a thousand points.
abbrev shop : Tables
shop = record {
  users = record { id = 7; login = bytes "ann"; password = bytes "h" } ∷ [];
  orders =
      record {
        id = 21;
        user_id = 7;
        number = bytes "18";
        status = processed;
        accrual = some (pos 1000);
        uploaded_at = 0;
      }
      ∷ [];
  user_balance = record { user_id = 7; current = pos 1000; withdrawn = pos 0 } ∷ [];
  withdrawals = [];
  balance_accruals = [];
}

abbrev start : State (World Tables (Unit {0}))
start = record {
  pool = record { jobs = []; capacity = 4; inflight = []; rate_limit_until = pos 0 };
  world = record { server = shop; rest = tt };
}

abbrev upload : Request
upload = record { context = some 7; authorization = []; body = done (bytes "26\n") }

abbrev info : OrderInfo
info = record { order = bytes "26"; status = bytes "PROCESSED"; accrual = some (pos 500) }

abbrev outside : Outside Unit
outside = record {
  client = record { get_order_info = λ number w. (ok info, w) };
  poll_batch = pos 2;
  now = λ w. pos 5;
  sleep = λ wait w. w;
}

upload_valid : valid (trim_space (bytes "26\n")) ≡ true
unfolding valid trim_space text_eq
upload_valid = refl

upload_given : text_eq (trim_space (bytes "26\n")) [] ≡ false
unfolding trim_space text_eq
upload_given = refl

upload_free : holder (trim_space (bytes "26\n")) shop ≡ none
unfolding trim_space text_eq
upload_free = refl

abbrev id : ℕ
id = given_id memory memory-IsReliable 7 (trim_space (bytes "26\n")) shop

id_new : any (λ row. row.id == id) shop.orders ≡ false
unfolding memory-IsReliable
id_new = refl

id_uncredited : credited_already id shop ≡ false
id_uncredited = refl

uploaded_order_is_paid_example :
    let uploaded =
      (create_order_handler
        (service_of memory)
        {A = Unit}
        upload
        (record { pool = start.pool; world = shop })).1 in
    let after =
      process_job
        (deps_of memory outside)
        (job_of 7 (trim_space (bytes "26\n")) id)
        (record { pool = uploaded.pool; world = record start.world { server = uploaded.world } }) in
    (now : ℕ) × (row_of id after.world.server
      ≡ some (record (new_row 7 (trim_space (bytes "26\n")) id now) {
        status = processed;
        accrual = some (pos 500);
      }))
    × (current_of 7 after.world.server.user_balance ≡ pos 1000 +ℤ pos 500)
uploaded_order_is_paid_example =
    uploaded_order_is_paid memory memory-IsReliable outside start upload 7 (bytes "26\n") info
      (pos 500) 7 refl refl upload_given upload_valid upload_free refl id_new id_uncredited
      (λ e. refl) refl refl refl
