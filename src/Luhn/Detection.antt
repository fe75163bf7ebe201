-- ===== src/Luhn/Detection.antt =====
-- What the Luhn check of pkg/luhn/luhn.go promises of mistyped order numbers.
use mathlib.Core.List.{reverse-append}
use loyalty_system.Prelude.{
  ℕ, suc, ◌+◌, ◌-◌, ◌%◌, ◌≤◌, ◌≡◌, refl, ◌⊎◌, Bool, true, false, not, [], ◌∷◌, ◌++◌, reverse, Text,
  length, length-append, arith,
}
use loyalty_system.Prelude.Strings.{IsDigits, IsDigits-append}
use loyalty_system.Luhn.{valid}
use loyalty_system.Luhn.Reference.{
  term, even, weigh, weigh_left, luhn_sum, luhn_sum-left, valid_iff,
}

abbrev pub IsDigit : ℕ → Type 0
IsDigit c = (b'0' ≤ c) × (c ≤ b'9')

IsDigits-right : (xs ys : Text) → IsDigits (xs ++ ys) → IsDigits ys
IsDigits-right [] ys h = h
IsDigits-right (x ∷ xs) ys h = IsDigits-right xs ys h.2

-- Changing a tail into another of the same length changes the sum by the tails' sums.
weigh_left_tail :
    (pre ys zs : Text)
    → length ys ≡ length zs
    → weigh_left (pre ++ ys) + weigh_left zs ≡ weigh_left (pre ++ zs) + weigh_left ys
unfolding weigh_left
weigh_left_tail [] ys zs e = omega arith
weigh_left_tail (p ∷ pre) ys zs e =
    let same : length (pre ++ ys) ≡ length (pre ++ zs) =
      omega (arith, length-append pre ys, length-append pre zs) in
    rw same (omega (arith, weigh_left_tail pre ys zs e))

left_sum : (number : Text) → valid number ≡ true → weigh_left number % 10 ≡ 0
left_sum number h = rw (← luhn_sum-left number) ((valid_iff number).0 h).1

-- Two digits that weigh the same modulo ten are the same digit.
term-injective :
    (twice : Bool) (c d : ℕ) → IsDigit c → IsDigit d → term twice c % 10 ≡ term twice d % 10 → c ≡ d
term-injective true c d hc hd e = ground arith
term-injective false c d hc hd e = ground arith

-- A number that differs from a valid one in a single digit is not valid: two valid numbers that
-- agree everywhere but at one place agree there too.
pub single_digit_detected :
    (pre post : Text) (c d : ℕ)
    → valid (pre ++ c ∷ post) ≡ true
    → valid (pre ++ d ∷ post) ≡ true
    → c ≡ d
unfolding weigh_left
single_digit_detected pre post c d hc hd =
    let dc = IsDigits-right pre (c ∷ post) ((valid_iff _).0 hc).0 in
    let dd = IsDigits-right pre (d ∷ post) ((valid_iff _).0 hd).0 in
    term-injective (even (length post + 1)) c d (dc.0, dc.1) (dd.0, dd.1)
      (omega (
        arith,
        left_sum (pre ++ c ∷ post) hc,
        left_sum (pre ++ d ∷ post) hd,
        weigh_left_tail pre (c ∷ post) (d ∷ post) refl,
      ))

swapped_terms :
    (outer inner : Bool) (c d : ℕ)
    → outer ≡ not inner
    → IsDigit c
    → IsDigit d
    → (term outer c + term inner d) % 10 ≡ (term outer d + term inner c) % 10
    → (c ≡ d) ⊎ (((c ≡ b'0') × (d ≡ b'9')) ⊎ ((c ≡ b'9') × (d ≡ b'0')))
swapped_terms true true c d alternate hc hd e = cc
swapped_terms true false c d alternate hc hd e = ground arith
swapped_terms false true c d alternate hc hd e = ground arith
swapped_terms false false c d alternate hc hd e = cc

even-suc : (n : ℕ) → even (suc n + 1) ≡ not (even (n + 1))
even-suc n = ground arith

-- Swapping two neighbouring digits of a valid number makes it invalid, unless they are equal or are
-- 0 and 9.
pub transposition_detected :
    (pre post : Text) (c d : ℕ)
    → valid (pre ++ c ∷ d ∷ post) ≡ true
    → valid (pre ++ d ∷ c ∷ post) ≡ true
    → (c ≡ d) ⊎ (((c ≡ b'0') × (d ≡ b'9')) ⊎ ((c ≡ b'9') × (d ≡ b'0')))
unfolding weigh_left
transposition_detected pre post c d hc hd =
    let digits = IsDigits-right pre (c ∷ d ∷ post) ((valid_iff _).0 hc).0 in
    swapped_terms (even (suc (length post) + 1)) (even (length post + 1)) c d
      (even-suc (length post)) (digits.0, digits.1) (digits.2.0, digits.2.1)
      (omega (
        arith,
        left_sum (pre ++ c ∷ d ∷ post) hc,
        left_sum (pre ++ d ∷ c ∷ post) hd,
        weigh_left_tail pre (c ∷ d ∷ post) (d ∷ c ∷ post) refl,
      ))

-- The digit that completes a payload.
pub check_digit : Text → ℕ
check_digit payload = b'0' + (10 - weigh true (reverse payload) % 10) % 10

check_digit-IsDigit : (payload : Text) → IsDigit (check_digit payload)
unfolding check_digit
check_digit-IsDigit payload = (omega arith, omega arith)

luhn_sum-snoc :
    (payload : Text) (c : ℕ)
    → luhn_sum (payload ++ c ∷ []) ≡ (c - b'0') + weigh true (reverse payload)
unfolding luhn_sum weigh
luhn_sum-snoc payload c = rw (reverse-append payload (c ∷ []))

check_digit-valid :
    (payload : Text) → IsDigits payload → valid (payload ++ check_digit payload ∷ []) ≡ true
unfolding check_digit
check_digit-valid payload digits =
    let c = check_digit-IsDigit payload in
    (valid_iff _).1 (
      IsDigits-append payload (check_digit payload ∷ []) digits (c.0, c.1, tt),
      rw (luhn_sum-snoc payload (check_digit payload)) (omega arith),
    )

-- For every text of digits there is one digit, and only one, that makes it valid when appended.
pub check_digit_unique :
    (payload : Text)
    → IsDigits payload
    → (valid (payload ++ check_digit payload ∷ []) ≡ true)
      × ((d : ℕ) → valid (payload ++ d ∷ []) ≡ true → d ≡ check_digit payload)
check_digit_unique payload digits = (
  check_digit-valid payload digits,
  λ d h.
      single_digit_detected payload [] d (check_digit payload) h (check_digit-valid payload digits),
)
