-- ===== src/Logger/Transparency.antt =====
-- The counting writer of internal/logger/logger.go beside the handler acting on the server's writer
-- alone.
use loyalty_system.Prelude.{
  ℕ, ◌+◌, ◌%◌, ◌^◌, ◌≤◌, ◌<◌, ◌≡◌, refl, ap, ◌∙◌, Bool, true, false, Option, List, [], ◌∷◌, Text,
  arith,
}
use loyalty_system.Errors.{Error}
use loyalty_system.Logger.{
  ResponseWriter, Program, finished, send_header, send, LoggingResponseWriter, write_header, write,
  serve, logging_middleware,
}

-- What `net/http` documents: the first final status is sent and any later one is ignored, and a
-- `Write` with no status before it sends the status 200.
pub record WriterLaws {I : Type 0} (lib : ResponseWriter I) : Type 0 where
  pub is_sent : I → Bool
  pub sends :
      (code : ℕ) (w : I) → 200 ≤ code → code ≤ 999 → is_sent (lib.write_header code w) ≡ true
  pub superfluous : (code : ℕ) (w : I) → is_sent w ≡ true → lib.write_header code w ≡ w
  pub implicit_ok :
      (b : Text) (w : I) → is_sent w ≡ false → lib.write b w ≡ lib.write b (lib.write_header 200 w)
  pub stays_sent : (b : Text) (w : I) → is_sent w ≡ true → is_sent (lib.write b w).1 ≡ true

-- The handler sends no informational status (1xx) and no invalid one, whatever it is answered.
abbrev pub IsFinal : Program → Type 0
IsFinal finished = Unit
IsFinal (send_header code next) = (200 ≤ code) × (code ≤ 999) × IsFinal next
IsFinal (send b next) = (reply : ℕ × Option Error) → IsFinal (next reply)

-- What a handler did: a status, or a number of bytes written.
pub data Sent : Type 0 where
  header : ℕ → Sent
  body : ℕ → Sent

abbrev pub first_status : List Sent → ℕ
first_status [] = 200
first_status (header code ∷ rest) = code
first_status (body n ∷ rest) = 200

abbrev pub total : List Sent → ℕ
total [] = 0
total (header code ∷ rest) = total rest
total (body n ∷ rest) = n + total rest

module _ {I : Type 0} (lib : ResponseWriter I) where
  -- The handler on the server's writer, with no middleware.
  pub direct : Program → I → List Sent × I
  direct finished w = ([], w)
  direct (send_header code next) w =
      let (sent, w') = direct next (lib.write_header code w) in (header code ∷ sent, w')
  direct (send b next) w =
      let (reply, w1) = lib.write b w in
      let (sent, w') = direct (next reply) w1 in (body reply.0 ∷ sent, w')

module _ {I : Type 0} (lib : ResponseWriter I) (laws : WriterLaws lib) where
  abbrev counting : I → (status bytes : ℕ) → Bool → LoggingResponseWriter I
  counting w status bytes wrote_header = record {
    response_writer = w;
    status = status;
    bytes = bytes;
    wrote_header = wrote_header;
  }

  -- Once a status has been sent, the handler goes on as on the server's writer, the status stays and
  -- the bytes are counted.
  serve-after_header :
      (p : Program) (w : I) (status n : ℕ)
      → IsFinal p
      → laws.is_sent w ≡ true
      → n < 2 ^ 64
      → serve lib p (counting w status n true)
        ≡ counting (direct lib p w).1 status ((n + total (direct lib p w).0) % 2 ^ 64) true
  unfolding serve direct write write_header
  serve-after_header finished w status n f sent small =
      ap (λ k. counting w status k true) (omega arith)
  serve-after_header (send_header code next) w status n f sent small =
      rw (laws.superfluous code w sent) (serve-after_header next w status n f.2 sent small)
  serve-after_header (send b next) w status n f sent small =
      let ((m, err), w1) = lib.write b w in
      serve-after_header (next (m, err)) w1 status ((n + m) % 2 ^ 64) (f (m, err))
        (laws.stays_sent b w sent) (omega arith)
      ∙ ap (λ k. counting (direct lib (next (m, err)) w1).1 status k true) (omega arith)

  -- A handler on a fresh writer.
  serve-fresh :
      (p : Program) (w : I)
      → IsFinal p
      → laws.is_sent w ≡ false
      → let out = serve lib p (counting w 200 0 false) in
        (out.response_writer ≡ (direct lib p w).1)
        × (out.status ≡ first_status (direct lib p w).0)
        × (out.bytes ≡ total (direct lib p w).0 % 2 ^ 64)
  unfolding serve direct write write_header
  serve-fresh finished w f fresh = (refl, refl, refl)
  serve-fresh (send_header code next) w f fresh =
      let e =
        serve-after_header next (lib.write_header code w) code 0 f.2 (laws.sends code w f.0 f.1)
          (omega arith) in
      (ap (λ l. l.response_writer) e, ap (λ l. l.status) e, ap (λ l. l.bytes) e ∙ omega arith)
  serve-fresh (send b next) w f fresh =
      let w1 = lib.write_header 200 w in
      let ((m, err), w2) = lib.write b w1 in
      let sent = laws.stays_sent b w1 (laws.sends 200 w (omega arith) (omega arith)) in
      let e =
        serve-after_header (next (m, err)) w2 200 ((0 + m) % 2 ^ 64) (f (m, err)) sent
          (omega arith) in
      rw (laws.implicit_ok b w fresh)
        (ap (λ l. l.response_writer) e, ap (λ l. l.status) e, ap (λ l. l.bytes) e ∙ omega arith)

  -- Over a response to which nothing has been sent, a handler that sends no informational status leaves
  -- the response as it would without the middleware, and the log has the status that was sent, 200 if
  -- there was none, and the number of bytes of the body, as an int64.
  pub logging_middleware-IsTransparent :
      (uri method : Text) (p : Program) (w : I)
      → IsFinal p
      → laws.is_sent w ≡ false
      → logging_middleware lib uri method p w ≡ (
        record {
          uri = uri;
          method = method;
          status = first_status (direct lib p w).0;
          response_size = total (direct lib p w).0 % 2 ^ 64;
        },
        (direct lib p w).1,
      )
  unfolding logging_middleware
  logging_middleware-IsTransparent uri method p w f fresh =
      let (same, status, size) = serve-fresh p w f fresh in
      λ i.
        (record { uri = uri; method = method; status = status i; response_size = size i }, same i)
