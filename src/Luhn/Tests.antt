-- ===== src/Luhn/Tests.antt =====
-- Runs of pkg/luhn/luhn.go, and the theorems at concrete order numbers.
use loyalty_system.Prelude.{◌%◌, ◌≡◌, refl, ◌↔◌, true, false, [], ◌∷◌, ◌++◌}
use loyalty_system.Prelude.Strings.{bytes, IsDigits}
use loyalty_system.Luhn.{valid}
use loyalty_system.Luhn.Reference.{luhn_sum, valid_iff}

valid_number : valid (bytes "79927398713") ≡ true
unfolding valid
valid_number = refl

invalid_number : valid (bytes "79927398710") ≡ false
unfolding valid
invalid_number = refl

not_a_number : valid (bytes "7992-398713") ≡ false
unfolding valid
not_a_number = refl

-- The empty text passes the check.
empty_number : valid [] ≡ true
unfolding valid
empty_number = refl

zero_nine : valid (bytes "0900009") ≡ valid (bytes "9000009")
unfolding valid
zero_nine = refl

valid_iff_example :
    (valid (bytes "79927398713") ≡ true)
    ↔ (IsDigits (bytes "79927398713") × (luhn_sum (bytes "79927398713") % 10 ≡ 0))
valid_iff_example = valid_iff (bytes "79927398713")

nines_valid : valid (bytes "1" ++ b'0' ∷ b'9' ∷ bytes "9") ≡ true
unfolding valid
nines_valid = refl

swapped_nines_valid : valid (bytes "1" ++ b'9' ∷ b'0' ∷ bytes "9") ≡ true
unfolding valid
swapped_nines_valid = refl
