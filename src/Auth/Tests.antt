-- ===== src/Auth/Tests.antt =====
-- A library of tokens that meets the laws, and the theorems of internal/auth/jwt.go over it.
use loyalty_system.Prelude.{◌≡◌, refl, true, [], ◌∷◌}
use loyalty_system.Prelude.Int.{pos, ◌+ℤ◌, int_laws}
use loyalty_system.Errors.{ok, done}
use loyalty_system.Auth.{hs256, Token, Jwt, key_of, generate, parse}
use loyalty_system.Auth.Toy.{toy, toy-JwtLaws}
use loyalty_system.Auth.Tokens.{generate-parse, parse-hs256}

abbrev jwt : Jwt
jwt = record { secret = b's' ∷ []; ttl = pos 3_600_000_000_000 }

token_made : generate toy jwt (pos 5) (pos 6) 42 ≡ ok (0 ∷ 3_600_000_000_005 ∷ 42 ∷ [])
unfolding generate ◌+ℤ◌
token_made = refl

token_parsed : parse toy jwt (pos 7) (0 ∷ 3_600_000_000_005 ∷ 42 ∷ []) ≡ ok 42
unfolding parse
token_parsed = refl

generate-parse_example : parse toy jwt (pos 1_000) (0 ∷ 3_600_000_000_005 ∷ 42 ∷ []) ≡ ok 42
generate-parse_example =
    generate-parse toy toy-JwtLaws jwt 42 (pos 5) (pos 6) _ token_made (pos 1_000) (omega int_laws)

parse-hs256_example :
    (t : Token) × (toy.parse (0 ∷ 3_600_000_000_005 ∷ 42 ∷ []) (key_of jwt) (pos 7) ≡ done t)
    × (t.is_valid ≡ true)
    × (t.method ≡ hs256)
parse-hs256_example = parse-hs256 toy toy-JwtLaws jwt (pos 7) _ 42 token_parsed
