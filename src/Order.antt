-- ===== src/Order.antt =====
-- internal/order/order.go and repo.go: the uploaded orders and the statements on their table.
pub mod Upload
pub mod Accrual
pub mod Polling
pub mod Service
pub mod Handler
pub mod Responses
pub mod Endpoint
pub mod Pending
pub mod Starvation
pub mod Accepted
pub mod Listing
mod Tests
use loyalty_system.Prelude.{
  ℕ, Bool, true, false, ◌||◌, Option, none, some, List, [], ◌∷◌, Text, text_eq, any, map, ltb, ◌==◌,
  if◌then◌else◌,
}
use loyalty_system.Prelude.Int.{ℤ, pos, pos_part, leb_ℤ}
use loyalty_system.Errors.{
  Error, sentinel, wrap, order_was_uploaded, order_already_uploaded_by_user, unique_violation,
  is_unique_violation, Result, ok, err, Exec, raise, wrapping, ◌>>=◌,
}
use loyalty_system.Pg.{
  Pg, Stmt, Tables, has_user, foreign_key_violation, Status, new, processing, invalid, processed,
  OrderRow, select, update, order_by, limit, one_row,
}

abbrev status_tag : Status → ℕ
status_tag new = 0
status_tag processing = 1
status_tag invalid = 2
status_tag processed = 3

-- `==` on statuses
abbrev pub status_eq : Status → Status → Bool
status_eq a b = status_tag a == status_tag b

pub record Order : Type 0 where
  pub id : ℕ
  pub user_id : ℕ
  pub number : Text
  pub status : Status
  pub accrual : ℤ
  pub uploaded_at : ℕ

pub record OrderDto : Type 0 where
  pub number : Text
  pub status : Status
  pub accrual : Option ℤ
  pub uploaded_at : ℕ

abbrev pub to_dto : Order → OrderDto
to_dto o = record {
  number = o.number;
  status = o.status;
  accrual = if status_eq o.status processed then some o.accrual else none;
  uploaded_at = o.uploaded_at;
}

-- `COALESCE(accrual, 0)`, and the columns that every SELECT of the file reads.
abbrev pub coalesce : Option ℤ → ℤ
coalesce none = pos 0
coalesce (some a) = a

abbrev pub to_struct : OrderRow → Order
to_struct row = record {
  id = row.id;
  user_id = row.user_id;
  number = row.number;
  status = row.status;
  accrual = coalesce row.accrual;
  uploaded_at = row.uploaded_at;
}

-- The primary key and the constraint UNIQUE on `number`.
abbrev pub clashes : ℕ → Text → OrderRow → Bool
clashes id number row = (row.id == id) || text_eq row.number number

abbrev pub new_row : ℕ → Text → (id now : ℕ) → OrderRow
new_row user_id number id now = record {
  id = id;
  user_id = user_id;
  number = number;
  status = new;
  accrual = none;
  uploaded_at = now;
}

-- INSERT … RETURNING id. The foreign key on `user_id` is checked after the unique indexes.
unfoldable pub insert_order_stmt : ℕ → Text → Stmt ℕ
insert_order_stmt user_id number env t =
    if any (clashes env.new_id number) t.orders
    then (err unique_violation, t)
    else if has_user user_id t
    then (ok env.new_id, record t { orders = new_row user_id number env.new_id env.now ∷ t.orders })
    else (err foreign_key_violation, t)

unfoldable pub order_by_id_query : ℕ → Stmt Order
order_by_id_query order_id env t =
    (one_row (map to_struct (select (λ row. row.id == order_id) t.orders)), t)

unfoldable pub order_by_number_query : Text → Stmt Order
order_by_number_query number env t =
    (one_row (map to_struct (select (λ row. text_eq row.number number) t.orders)), t)

abbrev pub is_pending : OrderRow → Bool
is_pending row = status_eq row.status new || status_eq row.status processing

abbrev pub older : OrderRow → OrderRow → Bool
older a b = ltb a.uploaded_at b.uploaded_at

abbrev pub newer : OrderRow → OrderRow → Bool
newer a b = ltb b.uploaded_at a.uploaded_at

unfoldable pub pending_orders_query : ℕ → Stmt (List Order)
pending_orders_query n env t =
    (ok (map to_struct (limit n (order_by older (select is_pending t.orders)))), t)

unfoldable pub orders_query : ℕ → Stmt (List Order)
orders_query user_id env t =
    (ok (map to_struct (order_by newer (select (λ row. row.user_id == user_id) t.orders))), t)

abbrev pub set_accrual : Status → ℤ → OrderRow → OrderRow
set_accrual status accrual row = record row { status = status; accrual = some accrual }

unfoldable pub update_accrual_stmt : ℕ → Status → ℤ → Stmt (Unit {0})
update_accrual_stmt order_id status accrual env t = (
  ok tt,
  record t { orders = update (λ row. row.id == order_id) (set_accrual status accrual) t.orders },
)

module _ (pg : Pg) where
  pub get_order_by_number : Text → Exec pg.Server Order
  get_order_by_number number =
      wrapping "failed to collect order" (pg.query Order (order_by_number_query number))

  -- The branch of `InsertOrder` for an error of the INSERT.
  pub on_insert_error : ℕ → Text → Error → Exec pg.Server ℕ
  on_insert_error user_id number e =
      if is_unique_violation e
      then (do
        existing ← wrapping "failed to get existing order" (get_order_by_number number)
        if existing.user_id == user_id
            then raise (sentinel order_already_uploaded_by_user)
            else raise (sentinel order_was_uploaded))
      else raise (wrap "failed to insert order" e)

  abbrev pub inserted : ℕ → Text → Result ℕ → Exec pg.Server ℕ
  inserted user_id number (ok order_id) s = (ok order_id, s)
  inserted user_id number (err e) s = on_insert_error user_id number e s

  unfoldable pub insert_order : ℕ → Text → Exec pg.Server ℕ
  unfolding on_insert_error get_order_by_number
  insert_order user_id number s =
      let (r, s') = pg.query ℕ (insert_order_stmt user_id number) s in inserted user_id number r s'

  unfoldable pub get_order_by_id : ℕ → Exec pg.Server Order
  get_order_by_id order_id =
      wrapping "failed to collect order by id" (pg.query Order (order_by_id_query order_id))

  -- `if limit <= 0 { limit = 1 }`
  abbrev pub effective_limit : ℤ → ℕ
  effective_limit n = if leb_ℤ n (pos 0) then 1 else pos_part n

  unfoldable pub select_pending_orders : ℤ → Exec pg.Server (List Order)
  select_pending_orders n =
      wrapping "failed to collect pending orders"
        (pg.query (List Order) (pending_orders_query (effective_limit n)))

  unfoldable pub update_order_accrual : ℕ → Status → ℤ → Exec pg.Server (Unit {0})
  update_order_accrual order_id status accrual =
      wrapping "failed to update order accrual"
        (pg.query Unit (update_accrual_stmt order_id status accrual))

  unfoldable pub select_orders : ℕ → Exec pg.Server (List Order)
  select_orders user_id =
      wrapping "failed to collect orders" (pg.query (List Order) (orders_query user_id))
