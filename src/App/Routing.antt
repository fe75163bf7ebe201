-- ===== src/App/Routing.antt =====
-- What `NewMux` of cmd/gophermart/di/app.go relies on of chi, and which of its routes stand behind the
-- middleware.
use loyalty_system.Prelude.{
  Bool, ◌&&◌, ◌||◌, ◌≡◌, refl, ap, ◌⊎◌, inl, inr, true, false, not, List, [], ◌∷◌, ◌++◌, any, Text,
  text_eq, text_eq_iff, ◌==◌, arith, Bool-cases,
}
use loyalty_system.Prelude.Int.{ℤ}
use loyalty_system.Prelude.Strings.{bytes}
use loyalty_system.Http.{Request, Handler}
use loyalty_system.Auth.{JwtLib, Jwt}
use loyalty_system.User.Middleware.{auth_middleware}
use loyalty_system.App.Mux.{Route, ChiLib, UserHandler, OrderHandler, BalanceHandler, new_mux}

module _ {W A : Type 0} where
  abbrev pub matches : (method path : Text) → Route W A → Bool
  matches method path route = text_eq route.method method && text_eq route.pattern path

  -- A pattern with no parameter and no wildcard.
  abbrev pub is_static : Route W A → Bool
  is_static route = not (any (λ c. (c == b'{') || (c == b'*')) route.pattern)

  abbrev pub all_static : List (Route W A) → Bool
  all_static [] = true
  all_static (route ∷ rest) = is_static route && all_static rest

-- What chi documents for static routes: a request reaches the route of its method and path that was
-- registered last, and is answered 404 or 405, with no effect, where there is none.
pub record ChiLaws {W A : Type 0} (chi : ChiLib W A) : Type 0 where
  pub found :
      (routes before after : List (Route W A)) (route : Route W A) (method path : Text)
      → all_static routes ≡ true
      → routes ≡ before ++ route ∷ after
      → matches method path route ≡ true
      → any (matches method path) after ≡ false
      → chi.dispatch routes method path ≡ route.handler
  pub missing :
      (routes : List (Route W A)) (method path : Text) (r : Request) (w : W)
      → all_static routes ≡ true
      → any (matches method path) routes ≡ false
      → (((chi.dispatch routes method path r w).0.status ≡ 404)
          ⊎ ((chi.dispatch routes method path r w).0.status ≡ 405))
        × ((chi.dispatch routes method path r w).1 ≡ w)

module _ {W A : Type 0} where
  -- The last route that matches, if there is one.
  pub data LastMatch (routes : List (Route W A)) (method path : Text) : Type 0 where
    at :
        (before after : List (Route W A)) (route : Route W A)
        → routes ≡ before ++ route ∷ after
        → matches method path route ≡ true
        → any (matches method path) after ≡ false
        → LastMatch routes method path
    nowhere : any (matches method path) routes ≡ false → LastMatch routes method path

  pub last_match : (routes : List (Route W A)) (method path : Text) → LastMatch routes method path
  last_match [] method path = nowhere refl
  last_match (x ∷ rest) method path = elim (last_match rest method path) [
    | at before after route e here none_after ↦
        at (x ∷ before) after route (ap (λ (l : List (Route W A)). x ∷ l) e) here none_after
    | nowhere none_after ↦ elim (Bool-cases (matches method path x)) [
      | inl here ↦ at [] rest x refl here none_after
      | inr other ↦ nowhere (rw (other, none_after) refl)
    ]
  ]

-- The two paths that need no token.
abbrev pub is_public : (method path : Text) → Bool
is_public method path =
    text_eq (bytes "POST") method
    && (text_eq (bytes "/api/user/register") path || text_eq (bytes "/api/user/login") path)

module _ (lib : JwtLib) (jwt : Jwt) {W A : Type 0} (clock : W → ℤ) where
  -- A route is public, or stands behind the middleware.
  abbrev pub IsGuarded : Route W A → Type 0
  IsGuarded route =
      (is_public route.method route.pattern ≡ true)
      ⊎ ((next : Handler W A) × (route.handler ≡ auth_middleware lib jwt clock next))

  abbrev pub AllGuarded : List (Route W A) → Type 0
  AllGuarded [] = Unit
  AllGuarded (route ∷ rest) = IsGuarded route × AllGuarded rest

  pub IsGuarded-at :
      (before after : List (Route W A)) (route : Route W A)
      → AllGuarded (before ++ route ∷ after)
      → IsGuarded route
  IsGuarded-at [] after route g = g.0
  IsGuarded-at (x ∷ before) after route g = IsGuarded-at before after route g.1

  pub new_mux-AllGuarded :
      (user : UserHandler W A) (order : OrderHandler W A) (balance : BalanceHandler W A)
      → AllGuarded (new_mux lib clock jwt user order balance)
  unfolding new_mux text_eq
  new_mux-AllGuarded user order balance = (
    inl refl,
    (
      inl refl,
      (
        inr (order.create_order, refl),
        (
          inr (order.get_orders, refl),
          (
            inr (balance.withdraw_balance, refl),
            (inr (balance.get_balance, refl), (inr (balance.get_withdrawals, refl), tt)),
          ),
        ),
      ),
    ),
  )

  pub new_mux_static :
      (user : UserHandler W A) (order : OrderHandler W A) (balance : BalanceHandler W A)
      → all_static (new_mux lib clock jwt user order balance) ≡ true
  unfolding new_mux
  new_mux_static user order balance = refl

  pub public_eq :
      (route : Route W A) (method path : Text)
      → matches method path route ≡ true
      → is_public method path ≡ is_public route.method route.pattern
  public_eq route method path h =
      let same_method : route.method ≡ method =
        (text_eq_iff route.method method).0 (ground arith) in
      let same_path : route.pattern ≡ path = (text_eq_iff route.pattern path).0 (ground arith) in
      rw (same_method, same_path) refl
