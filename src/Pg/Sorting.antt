-- ===== src/Pg/Sorting.antt =====
-- What ORDER BY and WHERE give: the rows that satisfy the condition, each as often as before, in
-- order.
use mathlib.Core.List.{Perm}
use mathlib.Core.List.Perm
use loyalty_system.Prelude.{◌≡◌, Bool, true, false, List, [], ◌∷◌, arith, Bool-cases, inl, inr}
use loyalty_system.Pg.{insert_by, order_by}

module _ {R : Type 0} (before : R → R → Bool) where
  -- No row must come before the one that stands in front of it.
  abbrev pub IsOrdered : List R → Type 0
  IsOrdered [] = Unit
  IsOrdered (r ∷ []) = Unit
  IsOrdered (r ∷ s ∷ rs) = (before s r ≡ false) × IsOrdered (s ∷ rs)

  insert_by-IsOrdered :
      ((a b : R) → before a b ≡ true → before b a ≡ false)
      → (r : R) (rs : List R) → IsOrdered rs
      → IsOrdered (insert_by before r rs)
  insert_by-IsOrdered asym r [] h = tt
  insert_by-IsOrdered asym r (s ∷ []) h = ground (arith, asym s r)
  insert_by-IsOrdered asym r (s ∷ t ∷ rs) h =
      ground (arith, asym s r, asym t r, insert_by-IsOrdered asym r (t ∷ rs) h.1)

  -- Sorting puts the rows in order, if no two rows must each come before the other.
  pub order_by-IsOrdered :
      ((a b : R) → before a b ≡ true → before b a ≡ false)
      → (rs : List R) → IsOrdered (order_by before rs)
  order_by-IsOrdered asym [] = tt
  order_by-IsOrdered asym (r ∷ rs) =
      insert_by-IsOrdered asym r (order_by before rs) (order_by-IsOrdered asym rs)

  insert_by-perm : (r : R) (rs : List R) → Perm (insert_by before r rs) (r ∷ rs)
  insert_by-perm r [] = Perm.refl (r ∷ [])
  insert_by-perm r (s ∷ rs) = elim (Bool-cases (before s r)) [
    | inl first ↦ rw first (Perm.trans (Perm.cons s (insert_by-perm r rs)) (Perm.swap r s rs))
    | inr after ↦ rw after (Perm.refl (r ∷ s ∷ rs))
  ]

  pub order_by-perm : (rs : List R) → Perm (order_by before rs) rs
  order_by-perm [] = Perm.refl []
  order_by-perm (r ∷ rs) =
      Perm.trans (insert_by-perm r (order_by before rs)) (Perm.cons r (order_by-perm rs))
