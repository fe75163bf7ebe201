-- ===== src/App/Access.antt =====
-- What a request to a path of the API reaches through `NewMux` of cmd/gophermart/di/app.go, with a valid
-- token and without.
use loyalty_system.Prelude.{
  ◌≡◌, refl, sym, ap, ◌∙◌, subst, ◌⊎◌, inl, inr, true, false, List, ◌∷◌, ◌++◌, any, Text, text_eq,
  ℕ, suc, take, drop,
}
use loyalty_system.Prelude.Int.{ℤ}
use loyalty_system.Prelude.Strings.{bytes}
use loyalty_system.Errors.{ok}
use loyalty_system.Http.{Request, Handler}
use loyalty_system.Auth.{JwtLib, Jwt, parse}
use loyalty_system.User.Context.{with_user_id}
use loyalty_system.User.Middleware.{auth_middleware, auth_middleware-serves, carried, Carries}
use loyalty_system.App.Mux.{Route, ChiLib, UserHandler, OrderHandler, BalanceHandler, new_mux}
use loyalty_system.App.Routing.{
  ChiLaws, at, nowhere, last_match, is_public, matches, AllGuarded, IsGuarded-at,
  new_mux-AllGuarded, new_mux_static, public_eq,
}

-- The request carries a token that is valid at the time of the clock.
abbrev pub IsAuthenticated :
    (lib : JwtLib) (jwt : Jwt) {W : Type 0} (clock : W → ℤ) → Request → W → Type 0
IsAuthenticated lib jwt clock r w =
    (token : Text) × (user_id : ℕ) × Carries r.authorization token
    × (parse lib jwt (clock w) token ≡ ok user_id)

-- The paths behind the middleware, and the handlers that serve them.
pub data Endpoint : Type 0 where
  create_order get_orders withdraw_balance get_balance get_withdrawals : Endpoint

abbrev pub method_of : Endpoint → Text
method_of create_order = bytes "POST"
method_of withdraw_balance = bytes "POST"
method_of _ = bytes "GET"

abbrev pub path_of : Endpoint → Text
path_of create_order = bytes "/api/user/orders"
path_of get_orders = bytes "/api/user/orders"
path_of withdraw_balance = bytes "/api/user/balance/withdraw"
path_of get_balance = bytes "/api/user/balance"
path_of get_withdrawals = bytes "/api/user/withdrawals"

abbrev pub handler_of :
    {W A : Type 0} → OrderHandler W A → BalanceHandler W A → Endpoint → Handler W A
handler_of order balance create_order = order.create_order
handler_of order balance get_orders = order.get_orders
handler_of order balance withdraw_balance = balance.withdraw_balance
handler_of order balance get_balance = balance.get_balance
handler_of order balance get_withdrawals = balance.get_withdrawals

module _ (lib : JwtLib) (jwt : Jwt) {W A : Type 0} (clock : W → ℤ) (chi : ChiLib W A)
    (laws : ChiLaws chi) (user : UserHandler W A) (order : OrderHandler W A)
    (balance : BalanceHandler W A) where
  -- Without a valid token, a request to any method and path but the registration and the login changes
  -- nothing and is answered 401, 404 or 405.
  pub new_mux_refuses :
      (method path : Text) (r : Request) (w : W)
      → is_public method path ≡ false
      → ¬ (IsAuthenticated lib jwt clock r w)
      → let out = chi.dispatch (new_mux lib clock jwt user order balance) method path r w in
        (((out.0.status ≡ 404) ⊎ (out.0.status ≡ 405)) ⊎ (out.0.status ≡ 401)) × (out.1 ≡ w)
  new_mux_refuses method path r w secret anonymous =
      let routes = new_mux lib clock jwt user order balance in
      let static = new_mux_static lib jwt clock user order balance in
      elim (last_match routes method path) [
        | nowhere none_here ↦
            let (status, same) = laws.missing routes method path r w static none_here in
            (inl status, same)
        | at before after route e here none_after ↦
            elim (IsGuarded-at lib jwt clock before after route (
              subst (AllGuarded lib jwt clock) e
                (new_mux-AllGuarded lib jwt clock user order balance))) [
                  | inl open_route ↦ absurd (
                      cc (sym secret ∙ public_eq lib jwt clock route method path here ∙ open_route))
                  | inr (next, guarded) ↦ elim (auth_middleware-serves lib jwt clock next r w) [
                    | inl (token, user_id, c, good, served) ↦
                        absurd (anonymous (token, user_id, c, good))
                    | inr (no_token, refused) ↦
                        rw
                          (
                            laws.found routes before after route method path static e here
                                none_after,
                            guarded,
                            refused,
                          )
                          (inr refl, refl)
                  ]
                ]
      ]

  abbrev routes : List (Route W A)
  routes = new_mux lib clock jwt user order balance

  abbrev route_of : Endpoint → Route W A
  route_of e = record {
    method = method_of e;
    pattern = path_of e;
    handler = auth_middleware lib jwt clock (handler_of order balance e);
  }

  reached :
      (e : Endpoint) (k : ℕ)
      → routes ≡ take k routes ++ route_of e ∷ drop (suc k) routes
      → matches (method_of e) (path_of e) (route_of e) ≡ true
      → any (matches (method_of e) (path_of e)) (drop (suc k) routes) ≡ false
      → chi.dispatch routes (method_of e) (path_of e)
        ≡ auth_middleware lib jwt clock (handler_of order balance e)
  reached e k split here none_after =
      laws.found routes (take k routes) (drop (suc k) routes) (route_of e) (method_of e) (path_of e)
        (new_mux_static lib jwt clock user order balance) split here none_after

  reaches :
      (e : Endpoint)
      → chi.dispatch (new_mux lib clock jwt user order balance) (method_of e) (path_of e)
        ≡ auth_middleware lib jwt clock (handler_of order balance e)
  unfolding new_mux text_eq
  reaches create_order = reached create_order 2 refl refl refl
  reaches get_orders = reached get_orders 3 refl refl refl
  reaches withdraw_balance = reached withdraw_balance 4 refl refl refl
  reaches get_balance = reached get_balance 5 refl refl refl
  reaches get_withdrawals = reached get_withdrawals 6 refl refl refl

  -- With a valid token, a request to each of the five paths behind the middleware is served by its
  -- handler as the token's user.
  pub new_mux_serves :
      (e : Endpoint) (r : Request) (w : W) (token : Text) (user_id : ℕ)
      → Carries r.authorization token
      → parse lib jwt (clock w) token ≡ ok user_id
      → chi.dispatch (new_mux lib clock jwt user order balance) (method_of e) (path_of e) r w
        ≡ handler_of order balance e (with_user_id user_id r) w
  new_mux_serves e r w token user_id c good =
      ap (λ (h : Handler W A). h r w) (reaches e)
      ∙ carried lib jwt clock (handler_of order balance e) r w token c
      ∙ rw good refl
