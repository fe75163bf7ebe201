-- ===== src/Luhn.antt =====
-- pkg/luhn/luhn.go: the check of an order number. A Go string is a list of bytes. `sum` and `i` are
-- Go's `int`; the sum is at most nine times the length, so neither wraps.
pub mod Reference
pub mod Detection
mod Tests
use loyalty_system.Prelude.{
  ℕ, suc, ◌+◌, ◌-◌, ◌*◌, ◌%◌, Bool, false, ◌||◌, [], ◌∷◌, Text, length, ltb, ◌==◌, if◌then◌else◌,
}

-- `number[i] < '0' || number[i] > '9'`
abbrev pub not_digit : ℕ → Bool
not_digit c = ltb c b'0' || ltb b'9' c

-- `d *= 2; if d > 9 { d -= 9 }`
abbrev pub doubled : ℕ → ℕ
doubled d = if ltb 9 (d * 2) then d * 2 - 9 else d * 2

-- The loop over `number[i..]`, with the sum so far.
unfoldable pub valid_from : (parity i sum : ℕ) → Text → Bool
valid_from parity i sum [] = (sum % 10) == 0
valid_from parity i sum (c ∷ rest) =
    let d = c - b'0' in
    let term = if (i % 2) == parity then doubled d else d in
    if not_digit c then false else valid_from parity (i + 1) (sum + term) rest

unfoldable pub valid : Text → Bool
unfolding valid_from
valid number = valid_from (length number % 2) 0 0 number
