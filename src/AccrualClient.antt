-- ===== src/AccrualClient.antt =====
-- pkg/accrualclient/model.go and contract.go: what the accrual system answers about an order.
mod Tests
pub mod Client
pub mod Retry
use loyalty_system.Prelude.{Bool, true, ◌||◌, Option, Text, text_eq, if◌then◌else◌}
use loyalty_system.Prelude.Int.{ℤ}
use loyalty_system.Prelude.Strings.{bytes}
use loyalty_system.Errors.{Error, sentinel, unknown_status, Result, ok, err, Exec}

abbrev pub status_registered : Text
status_registered = bytes "REGISTERED"

abbrev pub status_invalid : Text
status_invalid = bytes "INVALID"

abbrev pub status_processing : Text
status_processing = bytes "PROCESSING"

abbrev pub status_processed : Text
status_processed = bytes "PROCESSED"

pub record OrderInfo : Type 0 where
  pub order : Text
  pub status : Text
  pub accrual : Option ℤ

unfoldable pub is_final : Text → Bool
is_final s = text_eq s status_invalid || text_eq s status_processed

unfoldable pub is_valid : Text → Bool
is_valid s =
    text_eq s status_registered
    || text_eq s status_invalid
    || text_eq s status_processing
    || text_eq s status_processed

unfoldable pub validate : Text → Result (Unit {0})
unfolding is_valid
validate s = if is_valid s then ok tt else err (sentinel unknown_status)

-- The interface `Provider`, over the state of the world that the call acts on.
pub record Provider (W : Type 0) : Type 0 where
  pub get_order_info : Text → Exec W OrderInfo
