-- ===== src/AccrualClient/Retry.antt =====
-- pkg/accrualclient/config.go and retry.go: the settings of the retrying HTTP client, and which
-- attempts it repeats. The client itself is go-retryablehttp, a parameter (`HttpClient`).
use loyalty_system.Prelude.{
  ℕ, ◌≡◌, refl, ◌↔◌, ◌⊎◌, inl, Bool, true, false, Option, none, some, Text, ◌==◌, if◌then◌else◌,
  arith,
}
use loyalty_system.Prelude.Int.{ℤ, pos, ltb_ℤ}
use loyalty_system.Errors.{Error, Result, ok, err}

pub record Config : Type 0 where
  pub address : Text
  pub timeout : ℤ
  pub retry_max : ℤ
  pub retry_wait_min : ℤ
  pub retry_wait_max : ℤ

abbrev pub timeout : Config → ℤ
timeout c = if ltb_ℤ (pos 0) c.timeout then c.timeout else pos 5_000_000_000

abbrev pub retry_max : Config → ℤ
retry_max c = if ltb_ℤ (pos 0) c.retry_max then c.retry_max else pos 3

abbrev pub retry_wait_min : Config → ℤ
retry_wait_min c = if ltb_ℤ (pos 0) c.retry_wait_min then c.retry_wait_min else pos 500_000_000

abbrev pub retry_wait_max : Config → ℤ
retry_wait_max c = if ltb_ℤ (pos 0) c.retry_wait_max then c.retry_wait_max else pos 5_000_000_000

-- One attempt: a transport error, or a response with its status code.
abbrev pub Attempt : Type 0
Attempt = Result ℕ

-- `accrualCheckRetry`: whether to repeat, and the error to give up with. The first argument is
-- `ctx.Err()`.
unfoldable pub accrual_check_retry : Option Error → Attempt → Bool × Option Error
accrual_check_retry (some e) attempt = (false, some e)
accrual_check_retry none (err e) = (true, none)
accrual_check_retry none (ok status_code) = (if status_code == 500 then true else false, none)

-- What `newRetryableHTTPClient` sets on go-retryablehttp's client.
pub record Settings : Type 0 where
  pub timeout : ℤ
  pub retry_max : ℤ
  pub retry_wait_min : ℤ
  pub retry_wait_max : ℤ
  pub check_retry : Option Error → Attempt → Bool × Option Error

unfoldable pub new_retryable_http_client : Config → Settings
unfolding accrual_check_retry
new_retryable_http_client cfg = record {
  timeout = timeout cfg;
  retry_max = retry_max cfg;
  retry_wait_min = retry_wait_min cfg;
  retry_wait_max = retry_wait_max cfg;
  check_retry = accrual_check_retry;
}

-- While the context is live, an attempt is repeated exactly if the transport failed or the status is
-- 500, and the check never gives up with an error; once the context is done, nothing is repeated and
-- the context's error is the reply.
pub accrual_check_retry_iff :
    (ctx_err : Option Error) (attempt : Attempt)
    → (((accrual_check_retry ctx_err attempt).0 ≡ true)
        ↔ ((ctx_err ≡ none) × (((e : Error) × (attempt ≡ err e)) ⊎ (attempt ≡ ok 500))))
      × ((accrual_check_retry ctx_err attempt).1 ≡ ctx_err)
unfolding accrual_check_retry
accrual_check_retry_iff (some e) (ok n) = (ground arith, refl)
accrual_check_retry_iff (some e) (err x) = (ground arith, refl)
accrual_check_retry_iff none (err e) = ((λ _. (refl, inl (e, refl)), λ _. refl), refl)
accrual_check_retry_iff none (ok n) = (ground arith, refl)
