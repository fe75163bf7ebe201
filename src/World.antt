-- ===== src/World.antt =====
-- What the handlers and the workers act on together: the database server, and the rest of the world
-- (the accrual system, randomness, the clock), as cmd/gophermart/di/app.go puts the parts together.
use loyalty_system.Errors.{Exec}

pub record World (S E : Type 0) : Type 0 where
  pub server : S
  pub rest : E

module _ {S E : Type 0} where
  abbrev pub on_server : {A : Type 0} → Exec S A → Exec (World S E) A
  on_server m w = let (r, server) = m w.server in (r, record w { server = server })

  abbrev pub on_rest : {A : Type 0} → Exec E A → Exec (World S E) A
  on_rest m w = let (r, rest) = m w.rest in (r, record w { rest = rest })
