-- ===== src/AccrualClient/Tests.antt =====
-- The functions of pkg/accrualclient at concrete inputs.
use loyalty_system.Prelude.{◌≡◌, refl, text_eq}
use loyalty_system.Prelude.Int.{pos, negsuc, wrap64}
use loyalty_system.Prelude.Strings.{bytes}
use loyalty_system.AccrualClient.Client.{new_client}
use loyalty_system.AccrualClient.Client.RetryAfter.{parse_retry_after}

sixty : parse_retry_after (bytes " 60 ") ≡ pos 60_000_000_000
unfolding parse_retry_after wrap64 text_eq
sixty = refl

no_date : parse_retry_after (bytes "Wed, 21 Oct 2015 07:28:00 GMT") ≡ pos 0
unfolding parse_retry_after wrap64 text_eq
no_date = refl

-- 2 ^ 63 nanoseconds and more wrap round.
overflow : parse_retry_after (bytes "9223372037") ≡ negsuc 9223372036709551615
unfolding parse_retry_after wrap64 text_eq
overflow = refl

base_url :
    (new_client (record {
      address = bytes "http://a/";
      timeout = pos 0;
      retry_max = pos 0;
      retry_wait_min = pos 0;
      retry_wait_max = pos 0;
    })).base_url
    ≡ bytes "http://a"
unfolding new_client
base_url = refl
