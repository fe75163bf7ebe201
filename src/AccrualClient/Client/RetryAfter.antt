-- ===== src/AccrualClient/Client/RetryAfter.antt =====
-- `parseRetryAfter` of pkg/accrualclient/client.go.
use loyalty_system.Prelude.{
  ℕ, ◌+◌, ◌*◌, ◌-◌, ◌^◌, ◌<◌, ◌≡◌, refl, ap, ◌∙◌, true, Option, none, some, [], ◌∷◌, Text, text_eq,
  if◌then◌else◌, arith,
}
use loyalty_system.Prelude.Int.{ℤ, pos, negsuc, wrap64, wrap64_in_range}
use loyalty_system.Prelude.Strings.{
  trim_space, atoi, IsDigits, value_of, trim_space-IsDigits, atoi-value,
}

-- `time.Duration(seconds) * time.Second`, an int64
abbrev pub in_seconds : ℤ → ℤ
in_seconds (pos n) = wrap64 (pos (n * 1_000_000_000))
in_seconds (negsuc n) = wrap64 (negsuc ((n + 1) * 1_000_000_000 - 1))

abbrev pub seconds_or_zero : Option ℤ → ℤ
seconds_or_zero none = pos 0
seconds_or_zero (some seconds) = in_seconds seconds

unfoldable pub parse_retry_after : Text → ℤ
unfolding trim_space atoi
parse_retry_after value =
    let trimmed = trim_space value in
    if text_eq trimmed [] then pos 0 else seconds_or_zero (atoi trimmed)

-- A header of decimal digits is read as that many seconds, in nanoseconds, as long as those fit an
-- int64.
pub parse_retry_after-value :
    (c : ℕ) (rest : Text)
    → IsDigits (c ∷ rest)
    → value_of (c ∷ rest) * 1_000_000_000 < 2 ^ 63
    → parse_retry_after (c ∷ rest) ≡ pos (value_of (c ∷ rest) * 1_000_000_000)
unfolding parse_retry_after text_eq
parse_retry_after-value c rest h small =
    rw (trim_space-IsDigits (c ∷ rest) h, atoi-value c rest h (omega arith))
      (wrap64_in_range (pos (value_of (c ∷ rest) * 1_000_000_000)) small)

-- The wait that a header asks for: none if it is blank, and decimal digits are seconds.
pub record IsWait (value : Text) (wait : ℤ) : Type 0 where
  pub parsed : wait ≡ parse_retry_after value
  pub blank : text_eq (trim_space value) [] ≡ true → wait ≡ pos 0
  pub seconds :
      (c : ℕ) (rest : Text)
      → value ≡ c ∷ rest
      → IsDigits (c ∷ rest)
      → value_of (c ∷ rest) * 1_000_000_000 < 2 ^ 63
      → wait ≡ pos (value_of (c ∷ rest) * 1_000_000_000)

parse_retry_after-blank :
    (value : Text) → text_eq (trim_space value) [] ≡ true → parse_retry_after value ≡ pos 0
unfolding parse_retry_after
parse_retry_after-blank value h = rw h

pub parse_retry_after-IsWait : (value : Text) → IsWait value (parse_retry_after value)
parse_retry_after-IsWait value = record {
  parsed = refl;
  blank = parse_retry_after-blank value;
  seconds =
      λ c rest e digits small. ap parse_retry_after e ∙ parse_retry_after-value c rest digits small;
}
