-- ===== src/Pg/Queries.antt =====
-- Which rows a SELECT with WHERE, ORDER BY and LIMIT can return: a query on a list, through each
-- clause.
use loyalty_system.Prelude.{
  ℕ, zero, suc, ◌≡◌, refl, ◌∙◌, ap, Bool, false, ◌&&◌, ◌||◌, List, [], ◌∷◌, map, any, arith,
}
use loyalty_system.Pg.{select, insert_by, order_by, limit}

module _ {R : Type 0} (q : R → Bool) where
  any-insert_by :
      (before : R → R → Bool) (r : R) (rs : List R)
      → any q (insert_by before r rs) ≡ (q r || any q rs)
  any-insert_by before r [] = refl
  any-insert_by before r (s ∷ rs) = ground (arith, any-insert_by before r rs)

  pub any-order_by : (before : R → R → Bool) (rs : List R) → any q (order_by before rs) ≡ any q rs
  any-order_by before [] = refl
  any-order_by before (r ∷ rs) =
      any-insert_by before r (order_by before rs) ∙ ap (λ b. q r || b) (any-order_by before rs)

  pub any-limit : (n : ℕ) (rs : List R) → any q rs ≡ false → any q (limit n rs) ≡ false
  any-limit zero rs h = refl
  any-limit (suc n) [] h = refl
  any-limit (suc n) (r ∷ rs) h = ground (arith, any-limit n rs)

  pub any-select : (p : R → Bool) (rs : List R) → any q (select p rs) ≡ any (λ r. p r && q r) rs
  any-select p [] = refl
  any-select p (r ∷ rs) = ground (arith, any-select p rs)

  pub any-map : {S : Type 0} (f : S → R) (rs : List S) → any q (map f rs) ≡ any (λ r. q (f r)) rs
  any-map f [] = refl
  any-map f (r ∷ rs) = ap (λ b. q (f r) || b) (any-map f rs)
