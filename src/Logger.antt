-- ===== src/Logger.antt =====
-- internal/logger/logger.go: the response writer that counts what a handler sends, and the middleware
-- that logs a request with it. The server's own `http.ResponseWriter` is a parameter; building the zap
-- logger and the duration of the request are left out.
mod Transparency
mod Tests
use loyalty_system.Prelude.{ℕ, ◌+◌, ◌%◌, ◌^◌, Bool, true, false, Option, if◌then◌else◌, Text}
use loyalty_system.Errors.{Error}

-- `WriteHeader` and `Write` on a response in the state `I`; `Write` gives the number of bytes written
-- and an error.
pub record ResponseWriter (I : Type 0) : Type 0 where
  pub write_header : (code : ℕ) → I → I
  pub write : Text → I → (ℕ × Option Error) × I

-- What a handler does with its response writer: it may look at what `Write` gives it before it goes on.
pub data Program : Type 0 where
  finished : Program
  send_header : (code : ℕ) → Program → Program
  send : Text → (ℕ × Option Error → Program) → Program

-- `bytes` is an int64 as its bit pattern.
pub record LoggingResponseWriter (I : Type 0) : Type 0 where
  pub response_writer : I
  pub status : ℕ
  pub bytes : ℕ
  pub wrote_header : Bool

-- The fields that `log.Info` is given, without the duration.
pub record Entry : Type 0 where
  pub uri : Text
  pub method : Text
  pub status : ℕ
  pub response_size : ℕ

module _ {I : Type 0} (rw_lib : ResponseWriter I) where
  unfoldable pub write_header : ℕ → LoggingResponseWriter I → LoggingResponseWriter I
  write_header code lw = if lw.wrote_header then lw else record lw {
    status = code;
    wrote_header = true;
    response_writer = rw_lib.write_header code lw.response_writer;
  }

  unfoldable pub write :
      Text → LoggingResponseWriter I → (ℕ × Option Error) × LoggingResponseWriter I
  unfolding write_header
  write b lw =
      let lw1 = if lw.wrote_header then lw else write_header 200 lw in
      let (reply, inner) = rw_lib.write b lw1.response_writer in
      (reply, record lw1 { response_writer = inner; bytes = (lw1.bytes + reply.0) % 2 ^ 64 })

  -- The handler on the counting writer.
  unfoldable pub serve : Program → LoggingResponseWriter I → LoggingResponseWriter I
  serve finished lw = lw
  serve (send_header code next) lw = serve next (write_header code lw)
  serve (send b next) lw = let (reply, lw') = write b lw in serve (next reply) lw'

  unfoldable pub logging_middleware : (uri method : Text) → Program → I → Entry × I
  unfolding serve
  logging_middleware uri method next w =
      let lw =
        serve next
          (record { response_writer = w; status = 200; bytes = 0; wrote_header = false }) in
      (
        record { uri = uri; method = method; status = lw.status; response_size = lw.bytes },
        lw.response_writer,
      )
