-- ===== src/Luhn/Reference.antt =====
-- The loop of `Valid` against the textbook description of the Luhn sum: from the last digit to the
-- first, every second digit is doubled and
-- replaced by the digit sum of the double.
use mathlib.Core.List.{reverse-cons}
use native.Mathlib.Nat.{add_assoc, add-zero, zero-add}
use loyalty_system.Prelude.{
  ℕ, zero, suc, ◌+◌, ◌-◌, ◌*◌, ◌/◌, ◌%◌, ◌≤◌, ◌≡◌, refl, ap, ◌∙◌, sym, ◌↔◌, Bool, true, false, not,
  [], ◌∷◌, ◌++◌, reverse, Text, length, length-append, ◌==◌, ==_iff, if◌then◌else◌, arith,
}
use loyalty_system.Prelude.Strings.{IsDigits}
use loyalty_system.Luhn.{doubled, valid_from, valid}

-- The sum of the two digits of a number below a hundred.
abbrev pub digit_sum : ℕ → ℕ
digit_sum n = n / 10 + n % 10

-- What a digit adds to the sum: itself, or the digit sum of its double.
abbrev pub term : Bool → ℕ → ℕ
term twice c = if twice then digit_sum (2 * (c - b'0')) else c - b'0'

-- The loop's doubling is the digit sum of the double.
doubled_lem : (d : ℕ) → d ≤ 9 → doubled d ≡ digit_sum (2 * d)
doubled_lem d h = ground arith

-- The digits from the last to the first, every second one doubled.
unfoldable pub weigh : Bool → Text → ℕ
weigh twice [] = 0
weigh twice (c ∷ rest) = term twice c + weigh (not twice) rest

unfoldable pub luhn_sum : Text → ℕ
luhn_sum number = weigh false (reverse number)

-- The same sum from the first digit to the last: a digit is doubled when an even number of digits,
-- itself included, is left.
abbrev pub even : ℕ → Bool
even n = (n % 2) == 0

unfoldable pub weigh_left : Text → ℕ
weigh_left [] = 0
weigh_left (c ∷ rest) = term (even (length rest + 1)) c + weigh_left rest

flip : Bool → ℕ → Bool
flip twice zero = twice
flip twice (suc n) = flip (not twice) n

flip-not : (b : Bool) (n : ℕ) → flip (not b) n ≡ not (flip b n)
unfolding flip
flip-not b zero = refl
flip-not b (suc n) = flip-not (not b) n

flip-even : (n : ℕ) → flip false n ≡ even (n + 1)
unfolding flip
flip-even zero = refl
flip-even (suc n) = rw (flip-not false n, flip-even n) (ground arith)

weigh-append :
    (twice : Bool) (xs : Text) (c : ℕ)
    → weigh twice (xs ++ c ∷ []) ≡ weigh twice xs + term (flip twice (length xs)) c
unfolding weigh flip
weigh-append twice [] c = omega arith
weigh-append twice (x ∷ xs) c = omega (arith, weigh-append (not twice) xs c)

length-reverse : (xs : Text) → length (reverse xs) ≡ length xs
length-reverse [] = refl
length-reverse (x ∷ xs) =
    omega
      (arith, ap length (reverse-cons x xs), length-append (reverse xs) (x ∷ []), length-reverse xs)

weigh-reverse : (xs : Text) → weigh false (reverse xs) ≡ weigh_left xs
unfolding weigh_left weigh
weigh-reverse [] = refl
weigh-reverse (x ∷ xs) =
    rw (reverse-cons x xs, weigh-append false (reverse xs) x, length-reverse xs, flip-even)
      (omega (arith, weigh-reverse xs))

pub luhn_sum-left : (xs : Text) → luhn_sum xs ≡ weigh_left xs
unfolding luhn_sum
luhn_sum-left xs = weigh-reverse xs

-- The loop's test on the position is a test on how many digits are left.
turn : (i n parity : ℕ) → (i + n) % 2 ≡ parity → ((i % 2) == parity) ≡ even n
turn i n parity h = ground arith

pub valid_from-sum :
    (parity i sum : ℕ) (xs : Text)
    → (i + length xs) % 2 ≡ parity
    → IsDigits xs
    → valid_from parity i sum xs ≡ (((sum + weigh_left xs) % 10) == 0)
unfolding valid_from weigh_left
valid_from-sum parity i sum [] h d = rw add-zero
valid_from-sum parity i sum (x ∷ xs) h d =
    rw (turn i (length xs + 1) parity (omega arith), doubled_lem (x - b'0') (omega arith))
      (ground (
        arith,
        valid_from-sum parity (i + 1) (sum + term (even (length xs + 1)) x) xs,
        add_assoc sum (term (even (length xs + 1)) x) (weigh_left xs),
      ))

pub valid_from-IsDigits :
    (parity i sum : ℕ) (xs : Text) → valid_from parity i sum xs ≡ true → IsDigits xs
unfolding valid_from
valid_from-IsDigits parity i sum [] h = tt
valid_from-IsDigits parity i sum (x ∷ xs) h = ground (
  arith,
  valid_from-IsDigits parity (i + 1)
      (sum + (if (i % 2) == parity then doubled (x - b'0') else x - b'0')) xs,
)

valid-parts : (number : Text) → valid number ≡ true → IsDigits number
unfolding valid
valid-parts number h = valid_from-IsDigits (length number % 2) 0 0 number h

valid-sum : (number : Text) → IsDigits number → valid number ≡ ((luhn_sum number % 10) == 0)
unfolding valid
valid-sum number d =
    rw (luhn_sum-left number)
      (valid_from-sum (length number % 2) 0 0 number (omega arith) d ∙ rw zero-add)

-- `Valid` accepts exactly the texts of decimal digits whose Luhn sum is a multiple of ten: from the
-- last digit to the first, every second digit, the last but one first, counts with the digit sum of its double and the others
-- count themselves.
pub valid_iff :
    (number : Text) → (valid number ≡ true) ↔ (IsDigits number × (luhn_sum number % 10 ≡ 0))
valid_iff number = (
  λ h. (valid-parts number h, (==_iff _ 0).0 (sym (valid-sum number (valid-parts number h)) ∙ h)),
  λ (d, e). valid-sum number d ∙ (==_iff _ 0).1 e,
)
