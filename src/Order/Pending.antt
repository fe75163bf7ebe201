-- ===== src/Order/Pending.antt =====
-- `SelectPendingOrders` of internal/order/repo.go: which orders the scanner of the worker pool gets.
use mathlib.Core.List.{Perm}
use loyalty_system.Prelude.{
  ℕ, zero, suc, ◌≡◌, refl, ◌∙◌, ◌⊎◌, inl, inr, false, ◌&&◌, ◌||◌, List, [], ◌∷◌, map, any, ltb,
  ◌==◌, arith, Bool-cases,
}
use loyalty_system.Prelude.Int.{ℤ, pos, negsuc}
use loyalty_system.Errors.{Error, ok, err}
use loyalty_system.Pg.{
  Pg, PgLaws, Tables, Status, OrderRow, new, processing, select, update, order_by, limit,
}
use loyalty_system.Pg.Sorting.{IsOrdered, order_by-IsOrdered, order_by-perm}
use loyalty_system.Pg.Queries.{any-order_by, any-limit, any-select, any-map}
use loyalty_system.Pg.Reads.{query-reads}
use loyalty_system.Order.{
  Order, to_struct, older, is_pending, status_eq, pending_orders_query, effective_limit,
  select_pending_orders, set_accrual,
}

-- The oldest unfinished orders, at most `n` of them.
abbrev pub IsBatch : ℕ → Tables → List Order → Type 0
IsBatch n t orders =
    (rows : List OrderRow) × Perm rows
      (select (λ row. status_eq row.status new || status_eq row.status processing) t.orders)
    × IsOrdered (λ a b. ltb a.uploaded_at b.uploaded_at) rows
    × (orders ≡ map to_struct (limit n rows))

-- How many orders a limit asks for: as many as it says, and one if it is zero or less.
abbrev pub wanted : ℤ → ℕ
wanted (pos zero) = 1
wanted (pos (suc n)) = suc n
wanted (negsuc n) = 1

effective_limit-wanted : (pg : Pg) (n : ℤ) → effective_limit pg n ≡ wanted n
effective_limit-wanted pg (pos zero) = ground arith
effective_limit-wanted pg (pos (suc n)) = ground arith
effective_limit-wanted pg (negsuc n) = ground arith

abbrev pub batch : ℕ → Tables → List Order
batch n t = map to_struct (limit n (order_by older (select is_pending t.orders)))

batch-IsBatch : (n : ℕ) (t : Tables) → IsBatch n t (batch n t)
batch-IsBatch n t = (
  order_by older (select is_pending t.orders),
  order_by-perm older (select is_pending t.orders),
  order_by-IsOrdered older (λ a b h. ground arith) (select is_pending t.orders),
  refl,
)

module _ (pg : Pg) (laws : PgLaws pg) (n : ℤ) (s : pg.Server) where
  pub pending_cases :
      let (r, s') = select_pending_orders pg n s in
      (pg.tables s' ≡ pg.tables s)
      × ((r ≡ ok (batch (effective_limit pg n) (pg.tables s))) ⊎ ((e : Error) × (r ≡ err e)))
  unfolding select_pending_orders
  pending_cases =
      let (kept, found) =
        query-reads pg laws (pending_orders_query (effective_limit pg n))
          (λ t. ok (batch (effective_limit pg n) t)) (λ env t. unfold pending_orders_query in refl)
          s in
      (
        kept,
        elim found [ inl reply ↦ rw reply (inl refl) | inr (k, reply) ↦ rw reply (inr (_, refl)) ],
      )

  -- `SelectPendingOrders` returns the orders that are NEW or PROCESSING, the oldest first, at most
  -- as many as the limit says, or one of them if the limit is zero or less; or it fails. It changes nothing.
  pub select_pending_orders-IsBatch :
      let (r, s') = select_pending_orders pg n s in
      (pg.tables s' ≡ pg.tables s)
      × (((orders : List Order) × (r ≡ ok orders) × IsBatch (wanted n) (pg.tables s) orders)
          ⊎ ((e : Error) × (r ≡ err e)))
  select_pending_orders-IsBatch = (
    pending_cases.0,
    elim pending_cases.1 [
      | inl reply ↦
          inl (_, reply, rw (effective_limit-wanted pg n) (batch-IsBatch (wanted n) (pg.tables s)))
      | inr failed ↦ inr failed
    ],
  )

  -- An order with no unfinished row is not among them.
  pub finished_not_pending :
      (id : ℕ) (orders : List Order)
      → any (λ row. is_pending row && (row.id == id)) (pg.tables s).orders ≡ false
      → (select_pending_orders pg n s).0 ≡ ok orders
      → any (λ o. o.id == id) orders ≡ false
  finished_not_pending id orders finished reply = elim pending_cases.1 [
    | inr (e, failed) ↦ cc
    | inl answered ↦
        let same : orders ≡ batch (effective_limit pg n) (pg.tables s) = cc in
        rw same (
          any-map (λ (o : Order). o.id == id) to_struct _
          ∙ any-limit (λ row. row.id == id) (effective_limit pg n) _
              (any-order_by (λ row. row.id == id) older _
                ∙ any-select (λ row. row.id == id) is_pending (pg.tables s).orders
                ∙ finished))
  ]

-- Storing a status that is not NEW or PROCESSING leaves no unfinished row of the order.
pub any-set_accrual :
    (id : ℕ) (status : Status) (accrual : ℤ) (rows : List OrderRow)
    → (status_eq status new || status_eq status processing) ≡ false
    → any
        (λ row. is_pending row && (row.id == id))
        (update (λ row. row.id == id) (set_accrual status accrual) rows)
      ≡ false
any-set_accrual id status accrual [] h = refl
any-set_accrual id status accrual (row ∷ rows) h = elim (Bool-cases (row.id == id)) [
  | inl mine ↦ rw (mine, h) (any-set_accrual id status accrual rows h)
  | inr other ↦ rw (other, any-set_accrual id status accrual rows h) (ground arith)
]
