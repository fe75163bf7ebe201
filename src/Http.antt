-- ===== src/Http.antt =====
-- internal/httputil/httputil.go, and what the handlers read of a request. A handler writes one
-- response; an error of encoding it is only logged.
use loyalty_system.Prelude.{ℕ, Option, none, some, String, Text, if◌then◌else◌}
use loyalty_system.Errors.{unauthorized, errors_is, Result, ok, err, Reply}

-- The context's value under `userIDKey`, the header `Authorization` (empty if absent), and what
-- reading the body gives.
pub record Request : Type 0 where
  pub context : Option ℕ
  pub authorization : Text
  pub body : Reply Text

-- No body, an `ErrorBody`, or a value to be encoded.
pub data Body (A : Type 0) : Type 0 where
  empty : Body A
  error_body : String → Body A
  value : A → Body A

pub record Response (A : Type 0) : Type 0 where
  pub status : ℕ
  pub content_type : Option String
  pub authorization : Option Text
  pub body : Body A

module _ {A : Type 0} where
  -- `w.WriteHeader(status)` alone
  abbrev pub write_header : ℕ → Response A
  write_header status = record {
    status = status;
    content_type = none;
    authorization = none;
    body = empty;
  }

  abbrev pub write_json : ℕ → Body A → Response A
  write_json status body = record {
    status = status;
    content_type = some "application/json; charset=utf-8";
    authorization = none;
    body = body;
  }

  abbrev pub write_error : ℕ → String → Response A
  write_error status message = write_json status (error_body message)

-- A handler acts on the world and answers.
abbrev pub Handler : Type 0 → Type 0 → Type 0
Handler W A = Request → W → Response A × W

module _ {W A : Type 0} where
  abbrev pub respond : Response A → W → Response A × W
  respond response w = (response, w)

  -- `if errors.Is(err, user.ErrUnauthorized) { …; return }`: any other error leaves the zero UUID.
  abbrev pub with_user : Result ℕ → (ℕ → W → Response A × W) → W → Response A × W
  with_user (ok user_id) k = k user_id
  with_user (err e) k =
      if errors_is e unauthorized then respond (write_error 401 "unauthorized") else k 0

  -- A call of the service, and the response for its result.
  abbrev pub after_call : {B : Type 0} → (Result B → Response A) → Result B × W → Response A × W
  after_call f (r, w) = (f r, w)
