-- ===== src/App/Mux.antt =====
-- `NewMux` of cmd/gophermart/di/app.go. The router chi is a parameter: it is given the routes in the order
-- of the calls that register them.
use loyalty_system.Prelude.{List, [], ◌∷◌, Text}
use loyalty_system.Prelude.Int.{ℤ}
use loyalty_system.Prelude.Strings.{bytes}
use loyalty_system.Http.{Handler}
use loyalty_system.Auth.{JwtLib, Jwt}
use loyalty_system.User.Middleware.{auth_middleware}

-- `handler` has the middlewares of the route's group around it.
pub record Route (W A : Type 0) : Type 0 where
  pub method : Text
  pub pattern : Text
  pub handler : Handler W A

-- How a router made of routes serves a method and a path.
pub record ChiLib (W A : Type 0) : Type 0 where
  pub dispatch : List (Route W A) → (method path : Text) → Handler W A

pub record UserHandler (W A : Type 0) : Type 0 where
  pub create_user : Handler W A
  pub auth_user : Handler W A

pub record OrderHandler (W A : Type 0) : Type 0 where
  pub create_order : Handler W A
  pub get_orders : Handler W A

pub record BalanceHandler (W A : Type 0) : Type 0 where
  pub withdraw_balance : Handler W A
  pub get_balance : Handler W A
  pub get_withdrawals : Handler W A

module _ {W A : Type 0} where
  abbrev pub post : (pattern : Text) → Handler W A → Route W A
  post pattern handler = record { method = bytes "POST"; pattern = pattern; handler = handler }

  abbrev pub get : (pattern : Text) → Handler W A → Route W A
  get pattern handler = record { method = bytes "GET"; pattern = pattern; handler = handler }

  -- `r.Group` whose function first calls `r.Use`
  abbrev pub group : (Handler W A → Handler W A) → List (Route W A) → List (Route W A)
  group middleware [] = []
  group middleware (route ∷ rest) =
      record route { handler = middleware route.handler } ∷ group middleware rest

module _ (lib : JwtLib) {W A : Type 0} (clock : W → ℤ) where
  unfoldable pub new_mux :
      Jwt → UserHandler W A → OrderHandler W A → BalanceHandler W A → List (Route W A)
  new_mux jwt user order balance =
      post (bytes "/api/user/register") user.create_user
      ∷ post (bytes "/api/user/login") user.auth_user
      ∷ group (auth_middleware lib jwt clock) (
          post (bytes "/api/user/orders") order.create_order
          ∷ get (bytes "/api/user/orders") order.get_orders
          ∷ post (bytes "/api/user/balance/withdraw") balance.withdraw_balance
          ∷ get (bytes "/api/user/balance") balance.get_balance
          ∷ get (bytes "/api/user/withdrawals") balance.get_withdrawals
          ∷ [])
