-- ===== src/Pg/Lookup.antt =====
-- `pgx.CollectOneRow` over a SELECT: the first row that satisfies the condition, if there is one.
use loyalty_system.Prelude.{◌≡◌, refl, Bool, Option, none, some, List, [], ◌∷◌, map, find, arith}
use loyalty_system.Errors.{sentinel, no_rows, Result, ok, err}
use loyalty_system.Pg.{select, one_row}

module _ {R S : Type 0} (f : R → S) where
  abbrev pub row_reply : Option R → Result S
  row_reply none = err (sentinel no_rows)
  row_reply (some row) = ok (f row)

  pub one_row-select :
      (p : R → Bool) (rows : List R) → one_row (map f (select p rows)) ≡ row_reply (find p rows)
  one_row-select p [] = refl
  one_row-select p (row ∷ rows) = ground (arith, one_row-select p rows)
