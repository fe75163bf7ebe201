-- ===== src/AccrualClient/Client.antt =====
-- pkg/accrualclient/client.go: one request to the accrual system. net/http, go-retryablehttp and
-- encoding/json are a parameter, `HttpClient`.
pub mod RetryAfter
use loyalty_system.Prelude.{
  ℕ, Bool, true, false, ◌&&◌, ◌||◌, Option, none, some, [], ◌∷◌, ◌++◌, Text, text_eq, any, ◌==◌,
  if◌then◌else◌,
}
use loyalty_system.Prelude.Int.{ℤ, pos}
use loyalty_system.Prelude.Strings.{bytes, trim_space, trim_slashes, path_escape}
use loyalty_system.Errors.{
  Error, sentinel, not_found, server, empty_order_number, foreign, rate_limited, unexpected_status,
  wrap, join, Result, ok, err, Reply, done, fault, Exec, raise, pure,
}
use loyalty_system.AccrualClient.{OrderInfo, Provider}
use loyalty_system.AccrualClient.Retry.{Config, Settings, new_retryable_http_client}
use RetryAfter.{parse_retry_after}

-- An `*http.Response`, its header `Retry-After` (empty if absent), and what reading the body gives.
pub record Response : Type 0 where
  pub status_code : ℕ
  pub retry_after : Text
  pub body : Reply Text

-- What the client calls: `http.NewRequestWithContext` on a URL, `Do`, `err.Error()` of an error of
-- `Do`, and `json.Unmarshal` into an `OrderInfo`.
pub record HttpClient (W : Type 0) : Type 0 where
  pub new_request : Text → Reply Text
  pub do_request : Settings → Text → W → Reply Response × W
  pub error_text : ℕ → Text
  pub unmarshal : Text → Reply OrderInfo

pub record AccrualClient : Type 0 where
  pub base_url : Text
  pub http_client : Settings

unfoldable pub new_client : Config → AccrualClient
unfolding trim_slashes new_retryable_http_client
new_client cfg = record {
  base_url = trim_slashes cfg.address;
  http_client = new_retryable_http_client cfg;
}

-- `strings.HasPrefix` and `strings.Contains`
abbrev pub has_prefix : Text → Text → Bool
has_prefix s [] = true
has_prefix [] (c ∷ prefix) = false
has_prefix (d ∷ s) (c ∷ prefix) = (d == c) && has_prefix s prefix

abbrev pub contains : Text → Text → Bool
contains [] part = has_prefix [] part
contains (c ∷ s) part = has_prefix (c ∷ s) part || contains s part

-- `isRetryExhausted`, on the text of the error
abbrev pub is_retry_exhausted : Text → Bool
is_retry_exhausted text = contains text (bytes "giving up after")

abbrev pub decoded : Reply OrderInfo → Result OrderInfo
decoded (done info) = ok info
decoded (fault n) = err (wrap "decode accrual response" (foreign n))

-- The `switch` on the status code, once the body is read.
abbrev pub on_status : (Text → Reply OrderInfo) → ℕ → (retry_after body : Text) → Result OrderInfo
on_status unmarshal status_code retry_after body =
    if status_code == 200
    then decoded (unmarshal body)
    else if status_code == 204
    then err (sentinel not_found)
    else if status_code == 429
    then err (rate_limited (parse_retry_after retry_after) body)
    else if status_code == 500
    then err (sentinel server)
    else err (unexpected_status status_code body)

abbrev pub on_body : (Text → Reply OrderInfo) → ℕ → Text → Reply Text → Result OrderInfo
on_body unmarshal status_code retry_after (done body) =
    on_status unmarshal status_code retry_after body
on_body unmarshal status_code retry_after (fault n) = err (wrap "read accrual response" (foreign n))

abbrev pub path_prefix : Text
path_prefix = bytes "/api/orders/"

module _ {W : Type 0} (http : HttpClient W) (c : AccrualClient) where
  abbrev pub on_reply : Reply Response → Result OrderInfo
  on_reply (done resp) = on_body http.unmarshal resp.status_code resp.retry_after resp.body
  on_reply (fault n) =
      if is_retry_exhausted (http.error_text n)
      then err (join (sentinel server) (foreign n))
      else err (wrap "do accrual request" (foreign n))

  abbrev pub send : Reply Text → Exec W OrderInfo
  send (done request) w =
      let (reply, w') = http.do_request c.http_client request w in (on_reply reply, w')
  send (fault n) w = (err (wrap "build accrual request" (foreign n)), w)

  abbrev pub url_of : Text → Text
  url_of order_number = c.base_url ++ (path_prefix ++ path_escape order_number)

  unfoldable pub get_order_info : Text → Exec W OrderInfo
  unfolding trim_space
  get_order_info order_number =
      let trimmed = trim_space order_number in
      if text_eq trimmed []
      then raise (sentinel empty_order_number)
      else send (http.new_request (url_of trimmed))

  abbrev pub provider : Provider W
  provider = record { get_order_info = get_order_info }
