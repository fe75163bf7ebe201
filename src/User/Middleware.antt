-- ===== src/User/Middleware.antt =====
-- `NewAuthMiddleware` of internal/user/middleware.go: which requests reach a protected handler, and
-- as which user.
use loyalty_system.Prelude.{
  ℕ, ◌+◌, ◌≡◌, refl, ap, ◌⊎◌, inl, inr, Bool, true, false, not, ◌&&◌, Option, none, some, [], ◌∷◌,
  ◌++◌, map, any, Text, text_eq, ◌==◌, ==_iff, leb, if◌then◌else◌, arith, Bool-cases, Option-cases,
  ◌∙◌, sym,
}
use loyalty_system.Prelude.Int.{ℤ}
use loyalty_system.Prelude.Strings.{bytes}
use loyalty_system.Errors.{Result, ok, err, Result-cases}
use loyalty_system.Http.{Request, Response, Handler, write_error, respond}
use loyalty_system.Auth.{JwtLib, Jwt, parse}
use loyalty_system.User.Context.{with_user_id}

-- `strings.SplitN(header, " ", 2)`, if it has two parts
abbrev pub split_space : Text → Option (Text × Text)
split_space [] = none
split_space (c ∷ rest) =
    if c == b' '
    then some ([], rest)
    else elim (split_space rest) [ none ↦ none | some (a, b) ↦ some (c ∷ a, b) ]

-- `strings.EqualFold` with "Bearer", whose letters have no folds outside ASCII
abbrev pub lower : ℕ → ℕ
lower c = if leb b'A' c && leb c b'Z' then c + 32 else c

abbrev pub equal_fold : Text → Text → Bool
equal_fold a b = text_eq (map lower a) (map lower b)

-- `writeUnauthorized` writes the same body and headers as `httputil.WriteError`.
abbrev pub unauthorized_response : {A : Type 0} → Response A
unauthorized_response = write_error 401 "unauthorized"

module _ (lib : JwtLib) (jwt : Jwt) {W A : Type 0} (clock : W → ℤ) where
  abbrev pub serve : Handler W A → Request → Result ℕ → W → Response A × W
  serve next r (ok user_id) w = next (with_user_id user_id r) w
  serve next r (err e) w = respond unauthorized_response w

  abbrev pub with_parts : Handler W A → Request → Option (Text × Text) → W → Response A × W
  with_parts next r none w = respond unauthorized_response w
  with_parts next r (some (scheme, token)) w =
      if not (equal_fold scheme (bytes "Bearer"))
      then respond unauthorized_response w
      else serve next r (parse lib jwt (clock w) token) w

  unfoldable pub auth_middleware : Handler W A → Handler W A
  auth_middleware next r w =
      if text_eq r.authorization []
      then respond unauthorized_response w
      else with_parts next r (split_space r.authorization) w

-- A header that carries a token: a scheme without a space that is "Bearer" in any case, one space, and
-- the token.
abbrev pub Carries : (header token : Text) → Type 0
Carries header token =
    (scheme : Text) × (header ≡ scheme ++ b' ' ∷ token)
    × (any (λ c. c == b' ') scheme ≡ false)
    × (equal_fold scheme (bytes "Bearer") ≡ true)

split_space-append :
    (scheme token : Text)
    → any (λ c. c == b' ') scheme ≡ false
    → split_space (scheme ++ b' ' ∷ token) ≡ some (scheme, token)
split_space-append [] token h = refl
split_space-append (c ∷ scheme) token h = ground (arith, split_space-append scheme token)

nonempty : (xs ys : Text) → text_eq (xs ++ b' ' ∷ ys) [] ≡ false
unfolding text_eq
nonempty [] ys = refl
nonempty (x ∷ xs) ys = refl

parts_eq :
    {a b x y : Text}
    → ◌≡◌ {A = Option (Text × Text)} (some (a, x)) (some (b, y))
    → (a ≡ b) × (x ≡ y)
parts_eq e = (cc, cc)

split_space_sound :
    (header scheme token : Text)
    → split_space header ≡ some (scheme, token)
    → (header ≡ scheme ++ b' ' ∷ token) × (any (λ c. c == b' ') scheme ≡ false)
split_space_sound [] scheme token e = cc
split_space_sound (c ∷ header) scheme token e = elim (Bool-cases (c == b' ')) [
  | inl space ↦
      let (x, y) = parts_eq (rw space at e) in (rw (← x, ← y, (==_iff c b' ').0 space), rw (← x))
  | inr other ↦ elim (Option-cases (split_space header)) [
    | inl none_left ↦ absurd (cc (rw (other, none_left) at e))
    | inr ((a, b), found) ↦
        let (x, y) = parts_eq (rw (other, found) at e) in
        let (same, plain) = split_space_sound header a b found in
        (rw (← x, ← y, same), rw (← x, other) plain)
  ]
]

module _ (lib : JwtLib) (jwt : Jwt) {W A : Type 0} (clock : W → ℤ) (next : Handler W A)
    (r : Request) (w : W) where
  split_of :
      (token : Text) (c : Carries r.authorization token)
      → split_space r.authorization ≡ some (c.0, token)
  split_of token (scheme, e, plain, bearer) =
      ap split_space e ∙ split_space-append scheme token plain

  pub carried :
      (token : Text)
      → Carries r.authorization token
      → auth_middleware lib jwt clock next r w
        ≡ serve lib jwt clock next r (parse lib jwt (clock w) token) w
  unfolding auth_middleware
  carried token (scheme, e, plain, bearer) =
      let given : text_eq r.authorization [] ≡ false =
        ap (λ (h : Text). text_eq h []) e ∙ nonempty scheme token in
      rw (given, ap split_space e ∙ split_space-append scheme token plain, bearer)

  refused :
      with_parts lib jwt clock next r (split_space r.authorization) w ≡ (unauthorized_response, w)
      → auth_middleware lib jwt clock next r w ≡ (unauthorized_response, w)
  unfolding auth_middleware
  refused e = elim (Bool-cases (text_eq r.authorization [])) [
    | inl absent ↦ rw absent
    | inr given ↦ rw given e
  ]

  -- A protected handler runs exactly for the requests whose header carries a token that is accepted at
  -- that moment, once, with the token's user in the context. Every other request is answered 401
  -- before it has any effect.
  pub auth_middleware-serves :
      ((token : Text) × (user_id : ℕ) × Carries r.authorization token
        × (parse lib jwt (clock w) token ≡ ok user_id)
        × (auth_middleware lib jwt clock next r w ≡ next (with_user_id user_id r) w))
      ⊎ ((¬ (
            (token : Text) × (user_id : ℕ) × Carries r.authorization token
            × (parse lib jwt (clock w) token ≡ ok user_id)))
          × (auth_middleware lib jwt clock next r w ≡ (unauthorized_response, w)))
  auth_middleware-serves = elim (Option-cases (split_space r.authorization)) [
    | inl one_part ↦ inr (λ (token, user_id, c, e). cc (split_of token c), refused (rw one_part))
    | inr ((scheme, token), found) ↦
        let (same, plain) = split_space_sound r.authorization scheme token found in
        elim (Bool-cases (equal_fold scheme (bytes "Bearer"))) [
          | inr other ↦ inr (
            λ (token', user_id, c, e).
                let (x, y) = parts_eq (sym found ∙ split_of token' c) in
                absurd (cc (rw (← x, other) at c.3)),
            refused (rw (found, other)),
          )
          | inl bearer ↦ elim (Result-cases (parse lib jwt (clock w) token)) [
            | inl (user_id, good) ↦
                let c : Carries r.authorization token = (scheme, same, plain, bearer) in
                inl (token, user_id, c, good, carried token c ∙ rw good)
            | inr (e, bad) ↦ inr (
              λ (token', user_id, c, good).
                  let (x, y) = parts_eq (sym found ∙ split_of token' c) in
                  absurd (cc (sym (rw (← y) at good) ∙ bad)),
              refused (rw (found, bearer, bad)),
            )
          ]
        ]
  ]
