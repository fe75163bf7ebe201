-- ===== src/User/Context.antt =====
-- `WithUserID` and `UserIDFromContext` of internal/user/middleware.go. `uuid.Nil` is 0.
use loyalty_system.Prelude.{ℕ, Option, none, some, ◌==◌, if◌then◌else◌}
use loyalty_system.Errors.{sentinel, unauthorized, Result, ok, err}
use loyalty_system.Http.{Request}

abbrev pub with_user_id : ℕ → Request → Request
with_user_id user_id r = record r { context = some user_id }

abbrev pub user_id_from_context : Option ℕ → Result ℕ
user_id_from_context none = err (sentinel unauthorized)
user_id_from_context (some user_id) =
    if user_id == 0 then err (sentinel unauthorized) else ok user_id
