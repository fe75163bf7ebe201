-- ===== src/Order/Starvation.antt =====
-- `SelectPendingOrders` of internal/order/repo.go has no place for an order behind enough older ones that
-- stay unfinished.
use loyalty_system.Prelude.{
  ℕ, zero, suc, ◌+◌, ◌≤◌, ◌≡◌, refl, ◌∙◌, Bool, false, not, ◌&&◌, ◌||◌, List, [], ◌∷◌, map, any,
  ltb, ◌==◌, if◌then◌else◌, arith, inl, inr, Bool-cases,
}
use loyalty_system.Prelude.Int.{ℤ}
use loyalty_system.Errors.{ok}
use loyalty_system.Pg.{Pg, PgLaws, OrderRow, new, processing, select, insert_by, order_by, limit}
use loyalty_system.Pg.Sorting.{IsOrdered, order_by-IsOrdered}
use loyalty_system.Pg.Queries.{any-order_by, any-limit, any-select, any-map}
use loyalty_system.Order.{
  Order, to_struct, older, is_pending, status_eq, effective_limit, select_pending_orders,
}
use loyalty_system.Order.Pending.{pending_cases}

-- How many rows pass a test.
abbrev pub count : {R : Type 0} → (R → Bool) → List R → ℕ
count p [] = 0
count p (r ∷ rs) = (if p r then 1 else 0) + count p rs

module _ {R : Type 0} (p : R → Bool) where
  count-insert_by :
      (before : R → R → Bool) (r : R) (rs : List R)
      → count p (insert_by before r rs) ≡ count p (r ∷ rs)
  count-insert_by before r [] = refl
  count-insert_by before r (s ∷ rs) = ground (arith, count-insert_by before r rs)

  count-order_by : (before : R → R → Bool) (rs : List R) → count p (order_by before rs) ≡ count p rs
  count-order_by before [] = refl
  count-order_by before (r ∷ rs) =
      omega (arith, count-insert_by before r (order_by before rs), count-order_by before rs)

  count-select : (q : R → Bool) (rs : List R) → count p (select q rs) ≡ count (λ r. q r && p r) rs
  count-select q [] = refl
  count-select q (r ∷ rs) = ground (arith, count-select q rs)

abbrev uploaded_before : ℕ → OrderRow → Bool
uploaded_before u row = ltb row.uploaded_at u

-- Behind a row that is not older than `u` there is none in the order of the query.
none_older :
    (u : ℕ) (row : OrderRow) (rows : List OrderRow)
    → IsOrdered older (row ∷ rows)
    → uploaded_before u row ≡ false
    → count (uploaded_before u) rows ≡ 0
none_older u row [] h e = refl
none_older u row (next ∷ rows) h e =
    let e' : uploaded_before u next ≡ false = ground arith in
    ground (arith, none_older u next rows h.1 e')

IsOrdered-tail :
    (row : OrderRow) (rows : List OrderRow) → IsOrdered older (row ∷ rows) → IsOrdered older rows
IsOrdered-tail row [] h = tt
IsOrdered-tail row (next ∷ rows) h = h.1

limit-older :
    (u k : ℕ) (rows : List OrderRow)
    → IsOrdered older rows
    → k ≤ count (uploaded_before u) rows
    → any (λ row. not (uploaded_before u row)) (limit k rows) ≡ false
limit-older u zero rows h le = refl
limit-older u (suc k) [] h le = refl
limit-older u (suc k) (row ∷ rows) h le = elim (Bool-cases (uploaded_before u row)) [
  | inl first ↦
      let le' : k ≤ count (uploaded_before u) rows = ground arith in
      rw first (limit-older u k rows (IsOrdered-tail row rows h) le')
  | inr late ↦ absurd (ground (arith, none_older u row rows h late))
]

any_split :
    {R : Type 0} (q p : R → Bool) (rs : List R)
    → any (λ r. not (p r)) rs ≡ false
    → any (λ r. q r && p r) rs ≡ false
    → any q rs ≡ false
any_split q p [] h k = refl
any_split q p (r ∷ rs) h k = ground (arith, any_split q p rs)

any_and :
    (q p : OrderRow → Bool) (rows : List OrderRow)
    → any p rows ≡ false
    → any (λ r. q r && p r) rows ≡ false
any_and q p [] h = refl
any_and q p (r ∷ rows) h = ground (arith, any_and q p rows)

-- As long as as many unfinished orders as the limit allows are older than an order, the scanner's query
-- does not return it: whether it is NEW or PROCESSING, and however often the query is made.
pub starved_not_selected :
    (pg : Pg) (laws : PgLaws pg) (n : ℤ) (s : pg.Server) (id uploaded_at : ℕ) (orders : List Order)
    → any (λ row. (row.id == id) && ltb row.uploaded_at uploaded_at) (pg.tables s).orders ≡ false
    → effective_limit pg n
      ≤ count
          (λ row.
            (status_eq row.status new || status_eq row.status processing)
            && ltb row.uploaded_at uploaded_at)
          (pg.tables s).orders
    → (select_pending_orders pg n s).0 ≡ ok orders
    → any (λ o. o.id == id) orders ≡ false
starved_not_selected pg laws n s id u orders young enough reply =
    elim (pending_cases pg laws n s).1 [
      | inr (e, failed) ↦ cc
      | inl answered ↦
          let k = effective_limit pg n in
          let rows = (pg.tables s).orders in
          let sorted = order_by older (select is_pending rows) in
          let same : orders ≡ map to_struct (limit k sorted) = cc in
          let many : k ≤ count (uploaded_before u) sorted =
            rw
              (
                count-order_by (uploaded_before u) older (select is_pending rows),
                count-select (uploaded_before u) is_pending rows,
              )
              enough in
          let all_older =
            limit-older u k sorted
              (order_by-IsOrdered older (λ a b h. ground arith) (select is_pending rows)) many in
          let mine = λ (row : OrderRow). (row.id == id) && uploaded_before u row in
          let none_mine = any-limit mine k sorted (
            any-order_by mine older _
            ∙ any-select mine is_pending rows
            ∙ any_and is_pending mine rows young) in
          rw same (
            any-map (λ (o : Order). o.id == id) to_struct _
            ∙ any_split (λ row. row.id == id) (uploaded_before u) (limit k sorted) all_older
                none_mine)
    ]
