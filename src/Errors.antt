-- ===== src/Errors.antt =====
-- Go's error values across the packages: the sentinels of internal/balance/balance.go,
-- internal/order/order.go, internal/order/accrual.go, internal/user/user.go, pkg/luhn/luhn.go,
-- pkg/accrualclient/errors.go and contract.go, pkg/encryption/encryption.go, the two error structs of the accrual client, errors
-- of foreign code, and the chains that `fmt.Errorf` builds with `%w`.
use loyalty_system.Prelude.{
  ℕ, ◌≡◌, refl, Bool, true, false, ◌||◌, Option, none, some, String, Text, ◌==◌, ◌⊎◌, inl, inr,
}
use loyalty_system.Prelude.Int.{ℤ}

pub data Sentinel : Type 0 where
  insufficient_funds withdrawal_already_exists : Sentinel
  invalid_order_number : Sentinel
  order_was_uploaded order_already_uploaded_by_user : Sentinel
  unknown_accrual_status unknown_status : Sentinel
  user_not_found user_already_exists unauthorized invalid_credentials : Sentinel
  not_found server empty_order_number : Sentinel
  invalid_value : Sentinel
  -- `pgx.ErrNoRows` and `migrate.ErrNoChange`
  no_rows no_change : Sentinel

pub data Error : Type 0 where
  sentinel : Sentinel → Error
  -- `RateLimitedError` and `UnexpectedStatusError`
  rate_limited : ℤ → Text → Error
  unexpected_status : ℕ → Text → Error
  -- a `pgconn.PgError` with the code of a unique violation
  unique_violation : Error
  -- any other error of foreign code
  foreign : ℕ → Error
  -- `fmt.Errorf("…: %w", err)` and `fmt.Errorf("%w: %w", err, err)`
  wrap : String → Error → Error
  join : Error → Error → Error

abbrev tag : Sentinel → ℕ
tag insufficient_funds = 0
tag withdrawal_already_exists = 1
tag invalid_order_number = 2
tag order_was_uploaded = 3
tag order_already_uploaded_by_user = 4
tag unknown_accrual_status = 5
tag unknown_status = 6
tag user_not_found = 7
tag user_already_exists = 8
tag unauthorized = 9
tag invalid_credentials = 10
tag not_found = 11
tag server = 12
tag empty_order_number = 13
tag no_rows = 14
tag invalid_value = 15
tag no_change = 16

-- `errors.Is(err, target)`
abbrev pub errors_is : Error → Sentinel → Bool
errors_is (sentinel s) target = tag s == tag target
errors_is (wrap message err) target = errors_is err target
errors_is (join a b) target = errors_is a target || errors_is b target
errors_is _ target = false

-- `errors.As(err, &pgErr) && pgErr.Code == pgerrcode.UniqueViolation`
abbrev pub is_unique_violation : Error → Bool
is_unique_violation unique_violation = true
is_unique_violation (wrap message err) = is_unique_violation err
is_unique_violation (join a b) = is_unique_violation a || is_unique_violation b
is_unique_violation _ = false

abbrev or_else : Option ℤ → Option ℤ → Option ℤ
or_else none b = b
or_else (some a) b = some a

-- `errors.As(err, &rateLimited)`, with the `RetryAfter` of the error found
abbrev pub as_rate_limited : Error → Option ℤ
as_rate_limited (rate_limited retry_after body) = some retry_after
as_rate_limited (wrap message err) = as_rate_limited err
as_rate_limited (join a b) = or_else (as_rate_limited a) (as_rate_limited b)
as_rate_limited _ = none

-- A Go function that returns `(A, error)`.
pub data Result (A : Type 0) : Type 0 where
  ok : A → Result A
  err : Error → Result A

pub Result-cases :
    {A : Type 0} (r : Result A) → ((a : A) × (r ≡ ok a)) ⊎ ((e : Error) × (r ≡ err e))
Result-cases (ok a) = inl (a, refl)
Result-cases (err e) = inr (e, refl)

-- The reply of foreign code: a value, or an error of its own, which is none of the program's.
pub data Reply (A : Type 0) : Type 0 where
  done : A → Reply A
  fault : ℕ → Reply A

pub Reply-cases : {A : Type 0} (r : Reply A) → ((a : A) × (r ≡ done a)) ⊎ ((n : ℕ) × (r ≡ fault n))
Reply-cases (done a) = inl (a, refl)
Reply-cases (fault n) = inr (n, refl)

abbrev pub result_of : {A : Type 0} → Reply A → Result A
result_of (done a) = ok a
result_of (fault n) = err (foreign n)

-- A call that acts on a state and returns `(A, error)`: what was done before an error stays done.
abbrev pub Exec : Type 0 → Type 0 → Type 0
Exec W A = W → Result A × W

abbrev pub relabel : {A : Type 0} → String → Result A → Result A
relabel message (ok a) = ok a
relabel message (err e) = err (wrap message e)

module _ {W A : Type 0} where
  abbrev pub pure : A → Exec W A
  pure a w = (ok a, w)

  abbrev pub raise : Error → Exec W A
  raise e w = (err e, w)

  -- `if err != nil { return fmt.Errorf("message: %w", err) }`
  abbrev pub wrapping : String → Exec W A → Exec W A
  wrapping message m w = let (r, w') = m w in (relabel message r, w')

abbrev pub continue : {W A B : Type 0} → Result A → (A → Exec W B) → Exec W B
continue (ok a) f w = f a w
continue (err e) f w = (err e, w)

infixl 5 ◌>>=◌ ◌>>◌
abbrev pub ◌>>=◌ : {W A B : Type 0} → Exec W A → (A → Exec W B) → Exec W B
◌>>=◌ m f w = let (r, w') = m w in continue r f w'

abbrev pub ◌>>◌ : {W A B : Type 0} → Exec W A → Exec W B → Exec W B
m >> k = m >>= λ _. k
