-- ===== src/Logger/Tests.antt =====
-- A response as a status and its bytes, and a handler that answers 404 with a short body.
use loyalty_system.Prelude.{
  ℕ, ◌%◌, ◌^◌, ◌≡◌, refl, Bool, true, false, Option, none, some, [], ◌++◌, length, Text, arith,
}
use loyalty_system.Prelude.Strings.{bytes}
use loyalty_system.Logger.{
  ResponseWriter, Program, finished, send_header, send, logging_middleware, write,
}
use loyalty_system.Logger.Transparency.{
  WriterLaws, direct, first_status, total, logging_middleware-IsTransparent,
}

abbrev start : ℕ → Option ℕ → Option ℕ
start code none = some code
start code (some sent) = some sent

abbrev plain : ResponseWriter (Option ℕ × Text)
plain = record {
  write_header = λ code w. (start code w.0, w.1);
  write = λ b w. ((length b, none), (start 200 w.0, w.1 ++ b));
}

abbrev is_some : Option ℕ → Bool
is_some none = false
is_some (some n) = true

sends_lem : (code : ℕ) (o : Option ℕ) → is_some (start code o) ≡ true
sends_lem code none = refl
sends_lem code (some n) = refl

start_some : (code : ℕ) (o : Option ℕ) → is_some o ≡ true → start code o ≡ o
start_some code none h = cc
start_some code (some n) h = refl

start_twice : (code : ℕ) (o : Option ℕ) → start code o ≡ start code (start code o)
start_twice code none = refl
start_twice code (some n) = refl

abbrev plain_laws : WriterLaws plain
plain_laws = record {
  is_sent = λ w. is_some w.0;
  sends = λ code w h k. sends_lem code w.0;
  superfluous = λ code w h i. (start_some code w.0 h i, w.1);
  implicit_ok = λ b w h i. ((length b, none), (start_twice 200 w.0 i, w.1 ++ b));
  stays_sent = λ b w h. sends_lem 200 w.0;
}

abbrev not_found : Program
not_found = send_header 404 (send (bytes "no order") (λ reply. send_header 500 finished))

not_found_test : logging_middleware plain (bytes "/api") (bytes "GET") not_found (none, []) ≡ (
  record { uri = bytes "/api"; method = bytes "GET"; status = 404; response_size = 8 },
  (some 404, bytes "no order"),
)
unfolding logging_middleware write
not_found_test = refl

logging_middleware-IsTransparent_example :
    logging_middleware plain (bytes "/api") (bytes "GET") not_found (none, []) ≡ (
      record {
        uri = bytes "/api";
        method = bytes "GET";
        status = first_status (direct plain not_found (none, [])).0;
        response_size = total (direct plain not_found (none, [])).0 % 2 ^ 64;
      },
      (direct plain not_found (none, [])).1,
    )
logging_middleware-IsTransparent_example =
    logging_middleware-IsTransparent plain plain_laws (bytes "/api") (bytes "GET") not_found
      (none, []) (omega arith, omega arith, λ reply. (omega arith, omega arith, tt)) refl
