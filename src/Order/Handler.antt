-- ===== src/Order/Handler.antt =====
-- internal/order/handler.go: the two handlers of the orders.
use loyalty_system.Prelude.{ℕ, List, [], ◌∷◌, map, Text, text_eq, if◌then◌else◌}
use loyalty_system.Prelude.Strings.{trim_space}
use loyalty_system.Errors.{
  errors_is, invalid_order_number, order_was_uploaded, order_already_uploaded_by_user, Result, ok,
  err, Reply, done, fault,
}
use loyalty_system.Http.{
  Response, Handler, value, write_header, write_json, write_error, respond, with_user, after_call,
}
use loyalty_system.User.Context.{user_id_from_context}
use loyalty_system.Order.{Order, OrderDto, to_dto}
use loyalty_system.Order.Service.{Service, create_order, service_orders}

-- The `switch` on the error of the service.
abbrev pub created : {A : Type 0} → Result (Unit {0}) → Response A
created (ok _) = write_header 202
created (err e) =
    if errors_is e invalid_order_number
    then write_error 422 "invalid order number format"
    else if errors_is e order_was_uploaded
    then write_error 409 "the order number has already been uploaded by another user"
    else if errors_is e order_already_uploaded_by_user
    then write_header 200
    else write_error 500 "internal server error"

abbrev pub orders_map_to_dto : List Order → List OrderDto
orders_map_to_dto orders = map to_dto orders

abbrev pub got_orders : Result (List Order) → Response (List OrderDto)
got_orders (err e) = write_error 500 "internal server error"
got_orders (ok []) = write_header 204
got_orders (ok (o ∷ orders)) = write_json 200 (value (orders_map_to_dto (o ∷ orders)))

module _ {W : Type 0} (service : Service W) where
  abbrev pub with_body : {A : Type 0} → ℕ → Reply Text → W → Response A × W
  with_body user_id (fault n) = respond (write_error 400 "failed to read body")
  with_body user_id (done body) =
      let number = trim_space body in
      if text_eq number []
      then respond (write_error 400 "invalid request format")
      else (λ w. after_call created (create_order service user_id number w))

  unfoldable pub create_order_handler : {A : Type 0} → Handler W A
  create_order_handler r =
      with_user (user_id_from_context r.context) (λ user_id. with_body user_id r.body)

  unfoldable pub get_orders_handler : Handler W (List OrderDto)
  get_orders_handler r =
      with_user (user_id_from_context r.context)
        (λ user_id w. after_call got_orders (service_orders service user_id w))
