-- ===== src/Order/Listing.antt =====
-- `GET /api/user/orders` of internal/order/handler.go, over the service and the repository.
use mathlib.Core.List.{Perm}
use loyalty_system.Prelude.{
  ℕ, ◌≡◌, refl, ap, inl, inr, Option, none, some, if◌then◌else◌, List, [], ◌∷◌, map, ltb, ◌==◌,
  arith,
}
use loyalty_system.Prelude.Int.{ℤ, pos}
use loyalty_system.Errors.{ok}
use loyalty_system.Http.{Request, Response, value, error_body, write_header}
use loyalty_system.User.Context.{user_id_from_context}
use loyalty_system.Pg.{
  Pg, PgLaws, Tables, Status, new, processing, invalid, processed, OrderRow, select, order_by,
}
use loyalty_system.Pg.Sorting.{IsOrdered, order_by-IsOrdered, order_by-perm}
use loyalty_system.Pg.Reads.{query-reads}
use loyalty_system.Worker.{State}
use loyalty_system.Order.{
  OrderDto, to_dto, status_eq, coalesce, to_struct, newer, orders_query, select_orders,
}
use loyalty_system.Order.Service.{service_of, service_orders}
use loyalty_system.Order.Handler.{get_orders_handler, got_orders}

-- The user's rows, the newest first.
abbrev pub IsHistory : ℕ → Tables → List OrderRow → Type 0
IsHistory user_id t rows =
    Perm rows (select (λ row. row.user_id == user_id) t.orders)
    × IsOrdered (λ a b. ltb b.uploaded_at a.uploaded_at) rows

-- What a row shows: points only if it is PROCESSED, and then 0 if none are stored.
abbrev pub points_shown : Status → Option ℤ → Option ℤ
points_shown processed none = some (pos 0)
points_shown processed (some points) = some points
points_shown new points = none
points_shown processing points = none
points_shown invalid points = none

abbrev pub dto_of : OrderRow → OrderDto
dto_of row = record {
  number = row.number;
  status = row.status;
  accrual = points_shown row.status row.accrual;
  uploaded_at = row.uploaded_at;
}

accrual_lem :
    (status : Status) (points : Option ℤ)
    → (if status_eq status processed then some (coalesce points) else none)
      ≡ points_shown status points
accrual_lem processed none = refl
accrual_lem processed (some points) = refl
accrual_lem new points = refl
accrual_lem processing points = refl
accrual_lem invalid points = refl

dtos_lem : (rows : List OrderRow) → map to_dto (map to_struct rows) ≡ map dto_of rows
dtos_lem [] = refl
dtos_lem (row ∷ rows) = rw (accrual_lem row.status row.accrual, dtos_lem rows) refl

-- How the list of orders is answered.
pub data Lists (user_id : ℕ) (t : Tables) (response : Response (List OrderDto)) : Type 0 where
  nothing_uploaded : IsHistory user_id t [] → response ≡ write_header 204 → Lists user_id t response
  listed :
      (row : OrderRow) (rows : List OrderRow)
      → IsHistory user_id t (row ∷ rows)
      → response.status ≡ 200
      → response.body ≡ value (map dto_of (row ∷ rows))
      → Lists user_id t response
  broken :
      response.status ≡ 500
      → response.body ≡ error_body "internal server error"
      → Lists user_id t response

abbrev history : ℕ → Tables → List OrderRow
history user_id t = order_by newer (select (λ row. row.user_id == user_id) t.orders)

history-IsHistory : (user_id : ℕ) (t : Tables) → IsHistory user_id t (history user_id t)
history-IsHistory user_id t = (
  order_by-perm newer (select (λ row. row.user_id == user_id) t.orders),
  order_by-IsOrdered newer (λ a b h. ground arith)
      (select (λ row. row.user_id == user_id) t.orders),
)

got_orders-Lists :
    (user_id : ℕ) (t : Tables) (rows : List OrderRow)
    → IsHistory user_id t rows
    → Lists user_id t (got_orders (ok (map to_struct rows)))
got_orders-Lists user_id t [] h = nothing_uploaded h refl
got_orders-Lists user_id t (row ∷ rows) h =
    listed row rows h refl (ap value (dtos_lem (row ∷ rows)))

-- A request for the orders by a known user changes nothing. It is answered 200 with all the orders of
-- the user and no others, the newest first, with the points only of the PROCESSED ones; 204 if the user
-- has none; 500 if the server fails.
pub get_orders_handler-Lists :
    (pg : Pg) (laws : PgLaws pg) (s : State pg.Server) (r : Request) (user_id : ℕ)
    → user_id_from_context r.context ≡ ok user_id
    → let (response, s') = get_orders_handler (service_of pg) r s in
      Lists user_id (pg.tables s.world) response
      × (pg.tables s'.world ≡ pg.tables s.world)
      × (s'.pool ≡ s.pool)
unfolding get_orders_handler service_orders select_orders
get_orders_handler-Lists pg laws s r user_id known =
    let t = pg.tables s.world in
    let (kept, found) =
      query-reads pg laws (orders_query user_id) (λ t. ok (map to_struct (history user_id t)))
        (λ env t. unfold orders_query in refl) s.world in
    elim found [
      | inl reply ↦
          rw (known, reply)
            (
              got_orders-Lists user_id t (history user_id t) (history-IsHistory user_id t),
              kept,
              refl,
            )
      | inr (n, reply) ↦ rw (known, reply) (broken refl refl, kept, refl)
    ]
