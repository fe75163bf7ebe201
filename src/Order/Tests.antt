-- ===== src/Order/Tests.antt =====
-- Runs of internal/order over a server and an accrual system that do not fail, and the theorems at
-- those inputs.
use loyalty_system.Prelude.{
  ℕ, List, ◌⊎◌, ◌≡◌, refl, false, true, none, some, [], ◌∷◌, Text, text_eq, any, ◌==◌,
}
use loyalty_system.Prelude.Int.{pos}
use loyalty_system.Prelude.Strings.{bytes, trim_space}
use loyalty_system.Errors.{Error, ok, err, done}
use loyalty_system.Luhn.{valid}
use loyalty_system.Http.{Request}
use loyalty_system.Pg.{Tables, processed}
use loyalty_system.Pg.Memory.{memory, memory-PgLaws, memory-IsReliable}
use loyalty_system.AccrualClient.Client.{HttpClient, AccrualClient, provider, new_client}
use loyalty_system.Worker.{State}
use loyalty_system.Order.{
  Order, new_row, select_pending_orders, insert_order, insert_order_stmt, order_by_number_query,
}
use loyalty_system.Order.Accrual.{poll_order}
use loyalty_system.Order.Polling.{MeetsContract, poll_order-MeetsContract}
use loyalty_system.Order.Service.{service_of, create_order}
use loyalty_system.Order.Handler.{create_order_handler, get_orders_handler}
use loyalty_system.Order.Listing.{Lists, get_orders_handler-Lists}
use loyalty_system.Order.Pending.{IsBatch, select_pending_orders-IsBatch}
use loyalty_system.Order.Upload.{holder}
use loyalty_system.Order.Accepted.{given_id, fresh_upload_accepted}
use loyalty_system.Worker.Scan.{IsCovered}

-- User 7 holds the order 18, and the pool is idle.
abbrev shop : State Tables
shop = record {
  pool = record { jobs = []; capacity = 4; inflight = []; rate_limit_until = pos 0 };
  world = record {
    users = record { id = 7; login = bytes "ann"; password = bytes "h" } ∷ [];
    orders =
        record {
          id = 21;
          user_id = 7;
          number = bytes "18";
          status = processed;
          accrual = some (pos 500);
          uploaded_at = 0;
        }
        ∷ [];
    user_balance = [];
    withdrawals = [];
    balance_accruals = [];
  };
}

abbrev upload : Text → Request
upload number = record { context = some 7; authorization = []; body = done number }

upload_new :
    (create_order_handler (service_of memory) {A = Unit} (upload (bytes "26\n")) shop).0.status
    ≡ 202
unfolding create_order_handler create_order valid insert_order insert_order_stmt trim_space text_eq
upload_new = refl

upload_own :
    (create_order_handler (service_of memory) {A = Unit} (upload (bytes " 18")) shop).0.status ≡ 200
unfolding create_order_handler create_order valid insert_order insert_order_stmt
    order_by_number_query trim_space text_eq
upload_own = refl

upload_wrong :
    (create_order_handler (service_of memory) {A = Unit} (upload (bytes "19")) shop).0.status ≡ 422
unfolding create_order_handler create_order valid insert_order trim_space text_eq
upload_wrong = refl

-- An accrual system that asks every client to wait for a minute.
abbrev busy : HttpClient Unit
busy = record {
  new_request = λ url. done url;
  do_request = λ settings request w.
      (done (record { status_code = 429; retry_after = bytes "60"; body = done [] }), w);
  error_text = λ n. [];
  unmarshal = λ body. done (record { order = []; status = []; accrual = none });
}

abbrev client : AccrualClient
client = new_client (record {
  address = bytes "http://a/";
  timeout = pos 0;
  retry_max = pos 0;
  retry_wait_min = pos 0;
  retry_wait_max = pos 0;
})

not_blank : text_eq (trim_space (bytes "18")) [] ≡ false
unfolding trim_space text_eq
not_blank = refl

poll_order-MeetsContract_example :
    MeetsContract busy.unmarshal
      (some (429, []))
      (bytes "60")
      (poll_order (provider busy client) (bytes "18") tt).0
unfolding new_client
poll_order-MeetsContract_example =
    (poll_order-MeetsContract busy client (bytes "18") _ tt not_blank refl).0

abbrev asking : Request
asking = record { context = some 7; authorization = []; body = done [] }

get_orders_handler-Lists_example :
    let (response, s') = get_orders_handler (service_of memory) asking shop in
    Lists 7 shop.world response × (s'.world ≡ shop.world) × (s'.pool ≡ shop.pool)
get_orders_handler-Lists_example = get_orders_handler-Lists memory memory-PgLaws shop asking 7 refl

select_pending_orders-IsBatch_example :
    let (r, s') = select_pending_orders memory (pos 2) shop.world in
    (s' ≡ shop.world)
    × (((orders : List Order) × (r ≡ ok orders) × IsBatch 2 shop.world orders)
        ⊎ ((e : Error) × (r ≡ err e)))
select_pending_orders-IsBatch_example =
    select_pending_orders-IsBatch memory memory-PgLaws (pos 2) shop.world

upload_valid : valid (trim_space (bytes "26\n")) ≡ true
unfolding valid trim_space text_eq
upload_valid = refl

upload_given : text_eq (trim_space (bytes "26\n")) [] ≡ false
unfolding trim_space text_eq
upload_given = refl

upload_free : holder (trim_space (bytes "26\n")) shop.world ≡ none
unfolding trim_space text_eq
upload_free = refl

upload_id :
    any
      (λ row. row.id == given_id memory memory-IsReliable 7 (trim_space (bytes "26\n")) shop.world)
      shop.world.orders
    ≡ false
unfolding memory-IsReliable
upload_id = refl

fresh_upload_accepted_example :
    let (response, s') =
      create_order_handler (service_of memory) {A = Unit} (upload (bytes "26\n")) shop in
    let id = given_id memory memory-IsReliable 7 (trim_space (bytes "26\n")) shop.world in
    (response.status ≡ 202)
    × IsCovered id s'.pool
    × (now : ℕ) × (s'.world ≡ record shop.world {
      orders = new_row 7 (trim_space (bytes "26\n")) id now ∷ shop.world.orders;
    })
fresh_upload_accepted_example =
    fresh_upload_accepted memory memory-IsReliable shop (upload (bytes "26\n")) 7 (bytes "26\n")
      refl refl upload_given upload_valid upload_free refl upload_id
