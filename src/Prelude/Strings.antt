-- ===== src/Prelude/Strings.antt =====
-- What the program uses of Go's `strings`, `strconv` and `net/url`, on texts as lists of bytes.
use Prim.Native.Char.{code}
use Prim.Native.String.{String}
use mathlib.Core.List.{reverse-cons, reverse-reverse}
use native.Mathlib.Nat.{pow-suc}
use loyalty_system.Prelude.{
  ℕ, ◌≤◌, ◌<◌, length, arith, ap, ◌+◌, ◌-◌, ◌*◌, ◌/◌, ◌%◌, ◌^◌, ◌≡◌, refl, Bool, ◌&&◌, ◌||◌, Option,
  none, some, [], ◌∷◌, ◌++◌, reverse, Text, any, ltb, leb, ◌==◌, if◌then◌else◌,
}
use loyalty_system.Prelude.Int.{ℤ, pos, negsuc}

-- The bytes of an ASCII literal.
abbrev pub bytes : String → Text
bytes String.[] = []
bytes (String.◌∷◌ c s) = code c ∷ bytes s

-- The white space of Unicode, in UTF-8: one, two and three bytes.
abbrev pub space1 : ℕ → Bool
space1 a = (leb 9 a && leb a 13) || (a == 32)

abbrev pub space2 : ℕ → ℕ → Bool
space2 a b = (a == 0xc2) && ((b == 0x85) || (b == 0xa0))

abbrev pub space3 : ℕ → ℕ → ℕ → Bool
space3 a b c =
    ((a == 0xe1) && (b == 0x9a) && (c == 0x80))
    || ((a == 0xe2)
        && (b == 0x80)
        && ((leb 0x80 c && leb c 0x8a) || (c == 0xa8) || (c == 0xa9) || (c == 0xaf)))
    || ((a == 0xe2) && (b == 0x81) && (c == 0x9f))
    || ((a == 0xe3) && (b == 0x80) && (c == 0x80))

-- Strips white space from the front; `three` says how the bytes of one character follow.
pub strip : (two : ℕ → ℕ → Bool) (three : ℕ → ℕ → ℕ → Bool) → Text → Text
strip two three [] = []
strip two three (a ∷ []) = if space1 a then [] else a ∷ []
strip two three (a ∷ b ∷ []) =
    let one = strip two three (b ∷ []) in
    if space1 a then one else if two a b then [] else a ∷ b ∷ []
strip two three (a ∷ b ∷ c ∷ rest) =
    let one = strip two three (b ∷ c ∷ rest) in
    let both = strip two three (c ∷ rest) in
    let all = strip two three rest in
    if space1 a
    then one
    else if two a b
    then both
    else if three a b c
    then all
    else a ∷ b ∷ c ∷ rest

-- `strings.TrimSpace`
unfoldable pub trim_space : Text → Text
unfolding strip
trim_space s =
    reverse (strip (λ a b. space2 b a) (λ a b c. space3 c b a) (reverse (strip space2 space3 s)))

-- A text of decimal digits, and the number that it writes.
abbrev pub IsDigits : Text → Type 0
IsDigits [] = Unit
IsDigits (c ∷ rest) = (b'0' ≤ c) × (c ≤ b'9') × IsDigits rest

abbrev pub value_of : Text → ℕ
value_of [] = 0
value_of (c ∷ rest) = (c - b'0') * 10 ^ length rest + value_of rest

pub IsDigits-append : (xs ys : Text) → IsDigits xs → IsDigits ys → IsDigits (xs ++ ys)
IsDigits-append [] ys h k = k
IsDigits-append (x ∷ xs) ys h k = (h.0, h.1, IsDigits-append xs ys h.2 k)

pub IsDigits-reverse : (xs : Text) → IsDigits xs → IsDigits (reverse xs)
IsDigits-reverse [] h = tt
IsDigits-reverse (x ∷ xs) h =
    rw (reverse-cons x xs)
      (IsDigits-append (reverse xs) (x ∷ []) (IsDigits-reverse xs h.2) (h.0, h.1, tt))

strip-front : (xs : Text) → IsDigits xs → strip space2 space3 xs ≡ xs
unfolding strip
strip-front [] h = refl
strip-front (a ∷ []) h = ground arith
strip-front (a ∷ b ∷ []) h = ground arith
strip-front (a ∷ b ∷ c ∷ rest) h = ground arith

strip-back : (xs : Text) → IsDigits xs → strip (λ a b. space2 b a) (λ a b c. space3 c b a) xs ≡ xs
unfolding strip
strip-back [] h = refl
strip-back (a ∷ []) h = ground arith
strip-back (a ∷ b ∷ []) h = ground arith
strip-back (a ∷ b ∷ c ∷ rest) h = ground arith

-- Nothing is trimmed from digits.
pub trim_space-IsDigits : (xs : Text) → IsDigits xs → trim_space xs ≡ xs
unfolding trim_space
trim_space-IsDigits xs h =
    rw (strip-front xs h, strip-back (reverse xs) (IsDigits-reverse xs h)) (reverse-reverse xs)

-- `strconv.Atoi` on a 64-bit machine: an optional sign and decimal digits, in the range of int64.
abbrev is_digit : ℕ → Bool
is_digit c = leb b'0' c && leb c b'9'

digits_from : ℕ → Text → Option ℕ
digits_from n [] = some n
digits_from n (c ∷ rest) =
    let tail = digits_from (n * 10 + (c - b'0')) rest in if is_digit c then tail else none

abbrev digits : Text → Option ℕ
digits [] = none
digits (c ∷ rest) = digits_from 0 (c ∷ rest)

abbrev positive : Option ℕ → Option ℤ
positive none = none
positive (some n) = if ltb n (2 ^ 63) then some (pos n) else none

abbrev negative : Option ℕ → Option ℤ
negative none = none
negative (some n) =
    if n == 0 then some (pos 0) else if leb n (2 ^ 63) then some (negsuc (n - 1)) else none

unfoldable pub atoi : Text → Option ℤ
unfolding digits_from
atoi [] = none
atoi (c ∷ rest) =
    if c == b'-'
    then negative (digits rest)
    else if c == b'+'
    then positive (digits rest)
    else positive (digits (c ∷ rest))

digits_from-value :
    (n : ℕ) (xs : Text) → IsDigits xs → digits_from n xs ≡ some (n * 10 ^ length xs + value_of xs)
unfolding digits_from
digits_from-value n [] h = ap some (omega arith)
digits_from-value n (c ∷ rest) h =
    let e : (n * 10 + (c - b'0')) * 10 ^ length rest + value_of rest
        ≡ n * 10 ^ length (c ∷ rest) + value_of (c ∷ rest) =
      rw (pow-suc 10 (length rest)) (omega arith) in
    ground (arith, digits_from-value (n * 10 + (c - b'0')) rest h.2, e)

-- `Atoi` reads digits as the number that they write, while it fits an int64.
pub atoi-value :
    (c : ℕ) (rest : Text)
    → IsDigits (c ∷ rest)
    → value_of (c ∷ rest) < 2 ^ 63
    → atoi (c ∷ rest) ≡ some (pos (value_of (c ∷ rest)))
unfolding atoi
atoi-value c rest h small = ground (arith, digits_from-value 0 (c ∷ rest) h)

-- `url.PathEscape`: letters, digits and `-_.~$&+=:@` stand for themselves.
abbrev is_letter : ℕ → Bool
is_letter c = (leb b'a' c && leb c b'z') || (leb b'A' c && leb c b'Z')

abbrev unescaped : ℕ → Bool
unescaped c = is_letter c || is_digit c || any (λ d. c == d) (bytes "-_.~$&+=:@")

abbrev hex : ℕ → ℕ
hex d = if ltb d 10 then d + b'0' else d - 10 + b'A'

unfoldable pub path_escape : Text → Text
path_escape [] = []
path_escape (c ∷ rest) =
    (if unescaped c then c ∷ [] else b'%' ∷ hex (c / 16) ∷ hex (c % 16) ∷ []) ++ path_escape rest

-- `strings.TrimRight(s, "/")`
abbrev strip_slashes : Text → Text
strip_slashes [] = []
strip_slashes (c ∷ rest) = let tail = strip_slashes rest in if c == b'/' then tail else c ∷ rest

unfoldable pub trim_slashes : Text → Text
trim_slashes s = reverse (strip_slashes (reverse s))

trim_space_test : trim_space (bytes " \n12 ") ≡ bytes "12"
unfolding trim_space
trim_space_test = refl

atoi_test : atoi (bytes "-60") ≡ some (negsuc 59)
unfolding atoi
atoi_test = refl
