-- ===== src/User/Hasher.antt =====
-- internal/user/hasher.go. bcrypt is a parameter; `DefaultCost` is its cost.
use loyalty_system.Prelude.{ℕ, ◌≡◌, Text}
use loyalty_system.Errors.{Result, Reply, done, result_of, Exec}

-- `GenerateFromPassword` draws its salt from the world.
pub record Bcrypt (E : Type 0) : Type 0 where
  pub default_cost : ℕ
  pub generate_from_password : (plain : Text) (cost : ℕ) → E → Reply Text × E
  pub compare_hash_and_password : (hash plain : Text) → Reply (Unit {0})

-- A hash that was made of a password compares equal to that password.
pub record BcryptLaws {E : Type 0} (bcrypt : Bcrypt E) : Type 0 where
  pub accepts :
      (plain hash : Text) (cost : ℕ) (e : E)
      → (bcrypt.generate_from_password plain cost e).0 ≡ done hash
      → bcrypt.compare_hash_and_password hash plain ≡ done tt

module _ {E : Type 0} (bcrypt : Bcrypt E) where
  abbrev pub hash : Text → Exec E Text
  hash plain e =
      let (r, e') = bcrypt.generate_from_password plain bcrypt.default_cost e in (result_of r, e')

  abbrev pub compare : (hashed plain : Text) → Result (Unit {0})
  compare hashed plain = result_of (bcrypt.compare_hash_and_password hashed plain)
